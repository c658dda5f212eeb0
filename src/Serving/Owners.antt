-- ===== src/Serving/Owners.antt =====
-- internal/pipeline/handler.go: for whom a request calls the limiter, once it is let in.
use dify_game_gateway.Base.{
  [], ◌∷◌, true, false, none, some, refl, Text, List, ◌≡◌, arith, Bool, Option, not, ◌++◌, text_eq,
  text_eq_refl,
}
use dify_game_gateway.Pipeline.Tally.{count, count-append}
use dify_game_gateway.Pipeline.Errors.{Failure, Result, ok, err}
use dify_game_gateway.Pipeline.Effects.{
  Effect, limiter_allow, limiter_record, on_event, on_delta, Handler, StreamEvent, Answers,
}
use dify_game_gateway.Pipeline.Stream.{
  callback, callbacks, finish, on_error, on_success, stopped, stream, after_flush, after_stream,
  upstream_failed, save, after_push, stop_effects, Request, Stream, persist_effects, start_stream,
  ended,
}
use dify_game_gateway.Pipeline.Resolve.{resolve_conversation}
use dify_game_gateway.Pipeline.Chat.{
  after_allow, with_conversation, with_context, admitted, check_query, deferred, give_up,
}

-- A call of Allow, or one of Record for another player.
abbrev pub is_foreign : Text → Effect → Bool
is_foreign player (limiter_allow p) = true
is_foreign player (limiter_record p tokens) = not (text_eq p player)
is_foreign player _ = false

module _ (player : Text) where
  callback-foreign :
      (id : Text) (s : Stream) (e : StreamEvent) → count (is_foreign player) (callback id s e).0 ≡ 0
  unfolding callback after_push
  callback-foreign id s (on_event task_id) = refl
  callback-foreign id s (on_delta delta) = ground arith

  callbacks-foreign :
      (id : Text) (s : Stream) (es : List StreamEvent)
      → count (is_foreign player) (callbacks id s es).0 ≡ 0
  unfolding callbacks
  callbacks-foreign id s [] = refl
  callbacks-foreign id s (e ∷ es) =
      let (effects, s') = callback id s e in
      omega (
        arith,
        count-append (is_foreign player) effects (callbacks id s' es).0,
        callback-foreign id s e,
        callbacks-foreign id s' es,
      )

  resolve-foreign :
      (h : Handler) (a : Answers) (p npc client : Text)
      → count (is_foreign player) (resolve_conversation h a p npc client).effects ≡ 0
  unfolding resolve_conversation
  resolve-foreign h a p npc client = ground arith

module _ (r : Request) where
  on_error-foreign :
      (a : Answers) (s : Stream) (e : Failure) → count (is_foreign r.player) (on_error r a s e) ≡ 0
  unfolding on_error upstream_failed stopped stop_effects persist_effects
  on_error-foreign a s e = ground (arith, text_eq_refl r.player)

  finish-foreign : (a : Answers) (s : Stream) → count (is_foreign r.player) (finish r a s) ≡ 0
  unfolding finish after_flush
  finish-foreign a s = ground arith

  on_success-foreign :
      (a : Answers) (s : Stream) → count (is_foreign r.player) (on_success r a s) ≡ 0
  unfolding on_success save
  on_success-foreign a s = ground (arith, finish-foreign a s, text_eq_refl r.player)

  ended-foreign :
      (a : Answers) (s : Stream) (o : Option Failure)
      → count (is_foreign r.player) (ended r a s o) ≡ 0
  unfolding ended
  ended-foreign a s (some e) = on_error-foreign a s e
  ended-foreign a s none = on_success-foreign a s

  stream-foreign :
      (h : Handler) (a : Answers) (conversation : Text) (inputs : List (Text × Text))
      → count (is_foreign r.player) (stream h a r conversation inputs) ≡ 0
  unfolding stream after_stream
  stream-foreign h a conversation inputs =
      let (effects, s) = callbacks r.id (start_stream h) a.events in
      omega (
        arith,
        callbacks-foreign r.player r.id (start_stream h) a.events,
        count-append (is_foreign r.player) effects (ended r a s a.stream_error),
        ended-foreign a s a.stream_error,
      )

  with_context-foreign :
      (h : Handler) (a : Answers) (conversation : Text) (o : Result (List (Text × Text)))
      → count (is_foreign r.player) (with_context h a r conversation o) ≡ 0
  unfolding with_context check_query give_up
  with_context-foreign h a conversation (err e) = ground (arith, text_eq_refl r.player)
  with_context-foreign h a conversation (ok inputs) =
      ground (arith, stream-foreign h a conversation inputs, text_eq_refl r.player)

  with_conversation-foreign :
      (h : Handler) (a : Answers) (o : Result Text)
      → count (is_foreign r.player) (with_conversation h a r o) ≡ 0
  unfolding with_conversation give_up
  with_conversation-foreign h a (err e) = ground (arith, text_eq_refl r.player)
  with_conversation-foreign h a (ok conversation) = with_context-foreign h a conversation a.build

  -- Once Allow has answered, the handler does not ask it again, and books tokens for the player of the
  -- request only.
  pub after_allow-foreign :
      (h : Handler) (a : Answers) (client : Text) (o : Option Failure)
      → count (is_foreign r.player) (after_allow h a r client o) ≡ 0
  unfolding after_allow admitted deferred
  after_allow-foreign h a client (some e) = refl
  after_allow-foreign h a client none =
      let resolved = resolve_conversation h a r.player r.npc client in
      ground (
        arith,
        resolve-foreign r.player h a r.player r.npc client,
        count-append (is_foreign r.player) resolved.effects
            (with_conversation h a r resolved.conversation ++ deferred resolved.locked),
        count-append (is_foreign r.player) (with_conversation h a r resolved.conversation)
            (deferred resolved.locked),
        with_conversation-foreign h a resolved.conversation,
      )
