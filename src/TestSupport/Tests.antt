-- ===== src/TestSupport/Tests.antt =====
-- internal/testsupport/testsupport.go: a chat that the client of the harness reads.
use dify_game_gateway.Base.{
  All, subst, sym, trim_left, trim_right, is_space, text_eq, utf8_length, ℕ, [], ◌∷◌, none, some,
  true, text, List, Option, ◌≡◌, refl, arith, trim_space, ltb, ◌==◌, if◌then◌else◌,
}
use dify_game_gateway.Base.Int.{pos, ◌+ℤ◌}
use dify_game_gateway.Wire.{ChatRequest, ServerEnvelope, chunk, done}
use dify_game_gateway.Moderation.{
  allow_all, new_output_filter, push, flush, drain, select, segment_of, cut_at_last_terminator,
  last_index_any, is_terminator, drain_selected, moderate,
}
use dify_game_gateway.Codec.{closed}
use dify_game_gateway.Codec.Sequence.{IsWritable, write_each}
use dify_game_gateway.Pipeline.Errors.{ok}
use dify_game_gateway.Pipeline.Effects.{done_envelope, Handler, Answers, on_delta, live}
use dify_game_gateway.Pipeline.Chat.{
  handle_chat, checked, request_of, query_too_long, ready, guarded, after_allow, allow_failure,
  admitted, with_conversation, with_context, check_query, deferred, give_up, too_long_from,
}
use dify_game_gateway.Pipeline.Resolve.{
  resolve_conversation, create_locked, found, lock_ttl, look_again, resolve_from,
}
use dify_game_gateway.Pipeline.Stream.{
  stream, after_stream, after_flush, after_push, callback, callbacks, ended, finish, is_canceled,
  on_error, on_success, persist_effects, save, start_stream, stop_effects, stopped, upstream_failed,
}
use dify_game_gateway.Pipeline.Tally.{count}
use dify_game_gateway.Pipeline.Order.{is_chunk}
use dify_game_gateway.TestSupport.{Turn, read_turn}
use dify_game_gateway.TestSupport.Dependencies.{supported}
use dify_game_gateway.TestSupport.Chats.{is_settled, frames_sent, read_turn-handle_chat}

abbrev complete : Handler
complete = record {
  has_auth = true;
  has_limiter = true;
  has_store = true;
  has_assembler = true;
  has_dify = true;
  moderator = allow_all;
  lock_ttl = 30_000_000_000;
}

-- An upstream that says one sentence.
abbrev upstream : Answers
upstream = record {
  allow = (true, none);
  first_get = ok [];
  until_deadline = none;
  acquire = none;
  second_get = ok [];
  build = ok [];
  events = on_delta (text "Hello.") ∷ [];
  result = record { conversation_id = text "c1"; total_tokens = pos 7 };
  stream_error = none;
  context = live;
  record_error = none;
  set_error = none;
}

abbrev smooth : Answers
smooth = supported (text "c1") upstream

abbrev hello : ChatRequest
hello = record {
  request_id = text "r1";
  npc_id = text "smith";
  query = text "Hi";
  conversation_id = [];
  context = [];
}

-- A notation for the two frames of this chat.
abbrev marshal : ServerEnvelope → Option (List ℕ)
marshal (chunk _ _) = some (1 ∷ [])
marshal _ = some (2 ∷ [])

abbrev unmarshal : List ℕ → Option ServerEnvelope
unmarshal [] = none
unmarshal (c ∷ _) =
    some (if c == 1 then chunk (text "r1") (text "Hello.") else done (text "r1") (text "c1") 7)

abbrev since : ℕ → ℕ
since n = n

frames_test :
    frames_sent (handle_chat complete smooth (text "hero") hello)
    ≡ chunk (text "r1") (text "Hello.") ∷ done (text "r1") (text "c1") 7 ∷ []
unfolding handle_chat supported trim_space trim_left trim_right is_space text_eq utf8_length
    allow_all push flush drain select segment_of cut_at_last_terminator last_index_any is_terminator
    drain_selected moderate new_output_filter done_envelope ◌+ℤ◌ checked request_of query_too_long
    ready guarded after_allow allow_failure admitted with_conversation with_context check_query
    deferred give_up too_long_from resolve_conversation create_locked found lock_ttl look_again
    resolve_from stream after_stream after_flush after_push callback callbacks ended finish
    is_canceled on_error on_success persist_effects save start_stream stop_effects stopped
    upstream_failed
frames_test = refl

read_turn-handle_chat_example :
    (t : Turn) × (read_turn unmarshal since (record {
      pending =
          write_each marshal (frames_sent (handle_chat complete smooth (text "hero") hello)) [];
      ending = closed;
    })
      ≡ some t)
    × (t.ok ≡ ltb 0 (count is_settled (handle_chat complete smooth (text "hero") hello)))
    × (t.saw_token ≡ ltb 0 (count is_chunk (handle_chat complete smooth (text "hero") hello)))
unfolding supported
read_turn-handle_chat_example =
    read_turn-handle_chat marshal unmarshal since complete smooth (text "hero") hello refl (
      subst (All (IsWritable marshal unmarshal)) (sym frames_test)
        ((1 ∷ [], refl, refl, omega arith), ((2 ∷ [], refl, refl, omega arith), tt)))
