-- ===== src/Pipeline/Ends.antt =====
-- internal/pipeline/handler.go: the frames that end a chat for its client.
use dify_game_gateway.Wire.{ChatRequest, ResetRequest}
use dify_game_gateway.Pipeline.Reset.{handle_reset}
use dify_game_gateway.Pipeline.Tally.{count, is_end, is_delete, count-append}
use dify_game_gateway.Pipeline.Chat.{
  handle_chat, checked, with_conversation, with_context, after_allow, guarded, give_up, check_query,
  admitted, deferred, request_of, allow_failure,
}
use dify_game_gateway.Pipeline.Resolve.{resolve_conversation}
use dify_game_gateway.Pipeline.Stream.{
  callback, callbacks, ended, finish, on_error, on_success, stopped, stream, after_flush, save,
  stop_effects, after_stream, upstream_failed, after_push, Request, Stream, persist_effects,
  start_stream,
}
use dify_game_gateway.Base.{
  trim_space, [], ◌∷◌, false, none, some, refl, Bool, Option, ℕ, Text, ◌≡◌, if◌then◌else◌, List,
  is_some, ◌&&◌, ◌+◌, arith, ◌||◌, not, ◌++◌, is_empty,
}
use dify_game_gateway.Pipeline.Effects.{
  on_event, on_delta, Answers, Handler, done_envelope, StreamEvent, ChatResult,
}
use dify_game_gateway.Pipeline.Errors.{ok, err, Failure, Result, message_replace}

abbrev one_if : Bool → ℕ
one_if b = if b then 1 else 0

callback-ends :
    (id : Text) (s : Stream) (e : StreamEvent)
    → count is_end (callback id s e).0 + one_if s.output_blocked
      ≡ one_if (callback id s e).1.output_blocked
unfolding callback after_push
callback-ends id s (on_event task_id) = omega arith
callback-ends id s (on_delta delta) = ground arith

callbacks-ends :
    (id : Text) (s : Stream) (es : List StreamEvent)
    → count is_end (callbacks id s es).0 + one_if s.output_blocked
      ≡ one_if (callbacks id s es).1.output_blocked
unfolding callbacks
callbacks-ends id s [] = omega arith
callbacks-ends id s (e ∷ es) =
    let (effects, s') = callback id s e in
    omega (
      arith,
      count-append is_end effects (callbacks id s' es).0,
      callback-ends id s e,
      callbacks-ends id s' es,
    )

-- Something after the stream that the handler answers with a frame of its own, also where a delta was
-- blocked before: a replacement by the upstream's moderation, or a failure to account for the tokens
-- or to store the conversation.
abbrev pub late_failure : Answers → Option Failure → Bool
late_failure a (some e) = is_some (message_replace e)
late_failure a none =
    is_some a.record_error || (not (is_empty a.result.conversation_id) && is_some a.set_error)

stopped-ends :
    (r : Request) (result : ChatResult) (s : Stream) → count is_end (stopped r result s) ≡ 1
unfolding stopped stop_effects persist_effects done_envelope
stopped-ends r result s = ground arith

on_error-ends :
    (r : Request) (a : Answers) (s : Stream) (e : Failure)
    → count is_end (on_error r a s e)
      ≡ (if s.output_blocked then one_if (late_failure a (some e)) else 1)
unfolding on_error upstream_failed
on_error-ends r a s e = ground (arith, stopped-ends r a.result s)

finish-ends :
    (r : Request) (a : Answers) (s : Stream)
    → count is_end (finish r a s) ≡ (if s.output_blocked then 0 else 1)
unfolding finish after_flush done_envelope
finish-ends r a s = ground arith

on_success-ends :
    (r : Request) (a : Answers) (s : Stream)
    → count is_end (on_success r a s)
      ≡ (if s.output_blocked then one_if (late_failure a none) else 1)
unfolding on_success save
on_success-ends r a s = ground (arith, finish-ends r a s)

ended-ends :
    (r : Request) (a : Answers) (s : Stream) (o : Option Failure)
    → count is_end (ended r a s o) ≡ (if s.output_blocked then one_if (late_failure a o) else 1)
unfolding ended
ended-ends r a s (some e) = on_error-ends r a s e
ended-ends r a s none = on_success-ends r a s

-- A stream ends with one frame; with two exactly where a delta was blocked and something failed late.
pub stream-ends :
    (h : Handler) (a : Answers) (r : Request) (conversation : Text) (inputs : List (Text × Text))
    → count is_end (stream h a r conversation inputs) ≡ (
        if (callbacks r.id (start_stream h) a.events).1.output_blocked
          && late_failure a a.stream_error
        then 2
        else 1)
unfolding stream after_stream start_stream
stream-ends h a r conversation inputs =
    let (effects, s) = callbacks r.id (start_stream h) a.events in
    ground (
      arith,
      callbacks-ends r.id (start_stream h) a.events,
      count-append is_end effects (ended r a s a.stream_error),
      ended-ends r a s a.stream_error,
    )

resolve-ends :
    (h : Handler) (a : Answers) (player npc client : Text)
    → count is_end (resolve_conversation h a player npc client).effects ≡ 0
unfolding resolve_conversation
resolve-ends h a player npc client = ground arith

module _ (h : Handler) (a : Answers) (calm : late_failure a a.stream_error ≡ false) where
  with_context-ends :
      (r : Request) (conversation : Text) (o : Result (List (Text × Text)))
      → count is_end (with_context h a r conversation o) ≡ 1
  unfolding with_context check_query give_up
  with_context-ends r conversation (err e) = refl
  with_context-ends r conversation (ok inputs) =
      ground (arith, stream-ends h a r conversation inputs)

  with_conversation-ends :
      (r : Request) (o : Result Text) → count is_end (with_conversation h a r o) ≡ 1
  unfolding with_conversation give_up
  with_conversation-ends r (err e) = refl
  with_conversation-ends r (ok conversation) = with_context-ends r conversation a.build

  after_allow-ends :
      (r : Request) (client : Text) (o : Option Failure)
      → count is_end (after_allow h a r client o) ≡ 1
  unfolding after_allow admitted deferred
  after_allow-ends r client (some e) = refl
  after_allow-ends r client none =
      let resolved = resolve_conversation h a r.player r.npc client in
      ground (
        arith,
        resolve-ends h a r.player r.npc client,
        count-append is_end resolved.effects
            (with_conversation h a r resolved.conversation ++ deferred resolved.locked),
        count-append is_end (with_conversation h a r resolved.conversation)
            (deferred resolved.locked),
        with_conversation-ends r resolved.conversation,
      )

-- Every chat is answered by exactly one frame that ends it (done, error or blocked), on every path,
-- unless something fails late: the upstream replaces the message, or the accounting or the storing of
-- a completed stream fails.
pub handle_chat-ends :
    (h : Handler) (a : Answers) (player : Text) (req : ChatRequest)
    → late_failure a a.stream_error ≡ false
    → count is_end (handle_chat h a player req) ≡ 1
unfolding handle_chat checked guarded
handle_chat-ends h a player req calm = ground (
  arith,
  after_allow-ends h a calm (request_of player req) req.conversation_id (allow_failure a.allow),
)

-- Every reset is answered by exactly one frame that ends it, and deletes at most one conversation: one
-- exactly where it names an NPC and there is a store.
pub handle_reset-ends :
    (h : Handler) (deleted : Option Failure) (player : Text) (req : ResetRequest)
    → (count is_end (handle_reset h deleted player req) ≡ 1)
      × (count is_delete (handle_reset h deleted player req)
          ≡ (if not (is_empty (trim_space req.npc_id)) && h.has_store then 1 else 0))
unfolding handle_reset done_envelope
handle_reset-ends h none player req = ground arith
handle_reset-ends h (some e) player req = ground arith
