-- ===== src/Pipeline/Tests.antt =====
-- internal/pipeline/handler.go: the handlers on small inputs.
use dify_game_gateway.Base.{trim_space, text, [], ◌∷◌, none, some, true, false, refl, ◌≡◌}
use dify_game_gateway.Base.Int.{pos}
use dify_game_gateway.Wire.{ChatRequest}
use dify_game_gateway.Moderation.{
  Moderator, push, drain, select, segment_of, cut_at_last_terminator, last_index_any, is_terminator,
  drain_selected, moderate,
}
use dify_game_gateway.Pipeline.Errors.{ok, message_replaced, message_replace}
use dify_game_gateway.Pipeline.Effects.{Handler, Answers, on_delta, live}
use dify_game_gateway.Pipeline.Stream.{
  Request, stream, callbacks, callback, start_stream, after_push,
}
use dify_game_gateway.Pipeline.Chat.{handle_chat, request_of, query_too_long, ready}
use dify_game_gateway.Pipeline.Tally.{count, is_settle, is_end}
use dify_game_gateway.Pipeline.Slots.{handle_chat-settles}
use dify_game_gateway.Pipeline.Locking.{GivesBack, handle_chat-GivesBack}
use dify_game_gateway.Pipeline.Order.{IsOrdered, handle_chat-IsOrdered}
use dify_game_gateway.Pipeline.Ends.{stream-ends, handle_chat-ends}

-- A moderator that lets no output pass.
abbrev mute : Moderator
mute = record { check_input = λ _. (true, []); check_output = λ _. (false, text "...") }

abbrev complete : Handler
complete = record {
  has_auth = true;
  has_limiter = true;
  has_store = true;
  has_assembler = true;
  has_dify = true;
  moderator = mute;
  lock_ttl = 30_000_000_000;
}

-- One sentence, a replacement by the upstream's moderation, and no deadline.
abbrev replaced : Answers
replaced = record {
  allow = (true, none);
  first_get = ok [];
  until_deadline = none;
  acquire = none;
  second_get = ok [];
  build = ok [];
  events = on_delta (text "Hello.") ∷ [];
  result = record { conversation_id = text "conv"; total_tokens = pos 7 };
  stream_error = some (message_replaced (text "-"));
  context = live;
  record_error = none;
  set_error = none;
}

abbrev smooth : Answers
smooth = record replaced { stream_error = none }

abbrev hello : ChatRequest
hello = record {
  request_id = text "r1";
  npc_id = text "smith";
  query = text "Hi";
  conversation_id = [];
  context = [];
}

abbrev request : Request
request = record { id = text "r1"; player = text "hero"; npc = text "smith"; query = text "Hi" }

handle_chat-settles_example : count is_settle (handle_chat complete smooth (text "hero") hello) ≡ 1
unfolding request_of trim_space query_too_long ready
handle_chat-settles_example = handle_chat-settles complete smooth (text "hero") hello

handle_chat-ends_example : count is_end (handle_chat complete smooth (text "hero") hello) ≡ 1
handle_chat-ends_example = handle_chat-ends complete smooth (text "hero") hello refl

-- The delta is blocked, and then the message is replaced: two frames end the request.
stream-ends_example : count is_end (stream complete replaced request [] []) ≡ 2
unfolding callbacks callback start_stream after_push push drain select segment_of
    cut_at_last_terminator last_index_any is_terminator drain_selected moderate message_replace
stream-ends_example = stream-ends complete replaced request [] []

handle_chat-GivesBack_example :
    GivesBack replaced (handle_chat complete replaced (text "hero") hello)
handle_chat-GivesBack_example = handle_chat-GivesBack complete replaced (text "hero") hello

handle_chat-IsOrdered_example : IsOrdered (handle_chat complete replaced (text "hero") hello)
handle_chat-IsOrdered_example = handle_chat-IsOrdered complete replaced (text "hero") hello
