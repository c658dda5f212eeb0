-- ===== src/Pipeline/Slots.antt =====
-- internal/pipeline/handler.go: the in-flight slot of a request.
use dify_game_gateway.Wire.{ChatRequest}
use dify_game_gateway.Pipeline.Chat.{
  after_allow, with_conversation, with_context, admitted, check_query, deferred, request_of,
  give_up, query_too_long, ready, handle_chat, allow_failure, checked, guarded,
}
use dify_game_gateway.Pipeline.Resolve.{resolve_conversation}
use dify_game_gateway.Pipeline.Errors.{Failure, Result, ok, err, rate_limited}
use dify_game_gateway.Pipeline.Tally.{count, is_settle, count-append}
use dify_game_gateway.Pipeline.Stream.{
  callback, callbacks, finish, on_error, on_success, stopped, stream, after_flush, after_stream,
  upstream_failed, save, after_push, stop_effects, Request, Stream, persist_effects, start_stream,
  ended,
}
use dify_game_gateway.Base.{
  [], ◌∷◌, true, false, none, some, refl, inl, inr, Text, List, ◌≡◌, arith, Bool, Option, not, ◌++◌,
  is_empty, ◌&&◌, if◌then◌else◌, Bool-cases,
}
use dify_game_gateway.Pipeline.Effects.{
  on_event, on_delta, Handler, StreamEvent, ChatResult, Answers,
}

callback-settles :
    (id : Text) (s : Stream) (e : StreamEvent) → count is_settle (callback id s e).0 ≡ 0
unfolding callback after_push
callback-settles id s (on_event task_id) = refl
callback-settles id s (on_delta delta) = ground arith

pub callbacks-settles :
    (id : Text) (s : Stream) (es : List StreamEvent) → count is_settle (callbacks id s es).0 ≡ 0
unfolding callbacks
callbacks-settles id s [] = refl
callbacks-settles id s (e ∷ es) =
    let (effects, s') = callback id s e in
    omega (
      arith,
      count-append is_settle effects (callbacks id s' es).0,
      callback-settles id s e,
      callbacks-settles id s' es,
    )

stopped-settles :
    (r : Request) (result : ChatResult) (s : Stream) → count is_settle (stopped r result s) ≡ 1
unfolding stopped stop_effects persist_effects
stopped-settles r result s = ground arith

on_error-settles :
    (r : Request) (a : Answers) (s : Stream) (e : Failure) → count is_settle (on_error r a s e) ≡ 1
unfolding on_error upstream_failed
on_error-settles r a s e = ground (arith, stopped-settles r a.result s)

finish-settles : (r : Request) (a : Answers) (s : Stream) → count is_settle (finish r a s) ≡ 0
unfolding finish after_flush
finish-settles r a s = ground arith

on_success-settles :
    (r : Request) (a : Answers) (s : Stream) → count is_settle (on_success r a s) ≡ 1
unfolding on_success save
on_success-settles r a s = ground (arith, finish-settles r a s)

ended-settles :
    (r : Request) (a : Answers) (s : Stream) (o : Option Failure)
    → count is_settle (ended r a s o) ≡ 1
unfolding ended
ended-settles r a s (some e) = on_error-settles r a s e
ended-settles r a s none = on_success-settles r a s

stream-settles :
    (h : Handler) (a : Answers) (r : Request) (conversation : Text) (inputs : List (Text × Text))
    → count is_settle (stream h a r conversation inputs) ≡ 1
unfolding stream after_stream
stream-settles h a r conversation inputs =
    let (effects, s) = callbacks r.id (start_stream h) a.events in
    omega (
      arith,
      callbacks-settles r.id (start_stream h) a.events,
      count-append is_settle effects (ended r a s a.stream_error),
      ended-settles r a s a.stream_error,
    )

resolve-settles :
    (h : Handler) (a : Answers) (player npc client : Text)
    → count is_settle (resolve_conversation h a player npc client).effects ≡ 0
unfolding resolve_conversation
resolve-settles h a player npc client = ground arith

with_context-settles :
    (h : Handler) (a : Answers) (r : Request) (conversation : Text)
    (o : Result (List (Text × Text)))
    → count is_settle (with_context h a r conversation o) ≡ 1
unfolding with_context check_query give_up
with_context-settles h a r conversation (err e) = refl
with_context-settles h a r conversation (ok inputs) =
    ground (arith, stream-settles h a r conversation inputs)

with_conversation-settles :
    (h : Handler) (a : Answers) (r : Request) (o : Result Text)
    → count is_settle (with_conversation h a r o) ≡ 1
unfolding with_conversation with_context check_query give_up
with_conversation-settles h a r (err e) = refl
with_conversation-settles h a r (ok conversation) = with_context-settles h a r conversation a.build

admitted-settles :
    (h : Handler) (a : Answers) (r : Request) (client : Text)
    → count is_settle (after_allow h a r client none) ≡ 1
unfolding after_allow admitted deferred
admitted-settles h a r client =
    let resolved = resolve_conversation h a r.player r.npc client in
    ground (
      arith,
      resolve-settles h a r.player r.npc client,
      count-append is_settle resolved.effects
          (with_conversation h a r resolved.conversation ++ deferred resolved.locked),
      count-append is_settle (with_conversation h a r resolved.conversation)
          (deferred resolved.locked),
      with_conversation-settles h a r resolved.conversation,
    )

-- Whether the fields of the request pass their checks and all parts of the handler are there, so that
-- Allow is called.
abbrev pub is_asked : Handler → Text → ChatRequest → Bool
is_asked h player req =
    let r = request_of player req in
    not (is_empty r.npc) && not (is_empty r.query) && not (query_too_long r.query) && ready h

-- Whether Allow returns true and no error.
abbrev pub is_granted : Bool × Option Failure → Bool
is_granted (true, none) = true
is_granted _ = false

granted-failure :
    (o : Bool × Option Failure)
    → (is_granted o ≡ true → allow_failure o ≡ none)
      × (is_granted o ≡ false → (e : Failure) × (allow_failure o ≡ some e))
unfolding allow_failure
granted-failure (true, none) = (λ _. refl, λ e. cc)
granted-failure (true, some e) = (λ h. cc, λ _. (e, refl))
granted-failure (false, none) = (λ h. cc, λ _. (rate_limited, refl))
granted-failure (false, some e) = (λ h. cc, λ _. (e, refl))

pub after_allow-settles :
    (h : Handler) (a : Answers) (r : Request) (client : Text)
    → count is_settle (after_allow h a r client (allow_failure a.allow))
      ≡ (if is_granted a.allow then 1 else 0)
unfolding after_allow
after_allow-settles h a r client = elim (Bool-cases (is_granted a.allow)) [
  | inl yes_ ↦ rw (yes_, (granted-failure a.allow).0 yes_) (admitted-settles h a r client)
  | inr no_ ↦ let (e, eq) = (granted-failure a.allow).1 no_ in rw (no_, eq)
]

-- A chat gives back exactly the slots that it took: on every path, errors, moderation hits, stops and
-- accounting failures included, the handler calls Record, RecordFailure or Release once if Allow was
-- called and granted the request, and never if not.
pub handle_chat-settles :
    (h : Handler) (a : Answers) (player : Text) (req : ChatRequest)
    → count is_settle (handle_chat h a player req)
      ≡ (if is_asked h player req && is_granted a.allow then 1 else 0)
unfolding handle_chat checked guarded
handle_chat-settles h a player req =
    ground (arith, after_allow-settles h a (request_of player req) req.conversation_id)
