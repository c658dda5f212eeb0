-- ===== src/Pipeline/Locking.antt =====
-- internal/pipeline/handler.go: the lock of a conversation's creation.
use dify_game_gateway.Base.{
  [], ◌∷◌, ◌+◌, true, false, none, some, refl, Text, List, ◌≡◌, arith, Bool, Option, ◌++◌,
  if◌then◌else◌, is_some, ◌≤◌,
}
use dify_game_gateway.Wire.{ChatRequest}
use dify_game_gateway.Pipeline.Tally.{count, count-append, is_unlock}
use dify_game_gateway.Pipeline.Errors.{Failure, Result, ok, err}
use dify_game_gateway.Pipeline.Effects.{
  Effect, acquire_lock, unlock, on_event, on_delta, Handler, StreamEvent, Answers,
}
use dify_game_gateway.Pipeline.Stream.{
  callback, callbacks, finish, on_error, on_success, stopped, stream, after_flush, after_stream,
  upstream_failed, save, after_push, stop_effects, Request, Stream, persist_effects, start_stream,
  ended,
}
use dify_game_gateway.Pipeline.Resolve.{resolve_conversation}
use dify_game_gateway.Pipeline.Chat.{
  after_allow, with_conversation, with_context, admitted, check_query, deferred, give_up,
  handle_chat, checked, guarded, request_of, allow_failure,
}

-- A call that takes the lock, and one that takes it or gives it back.
abbrev pub is_acquire : Effect → Bool
is_acquire (acquire_lock _ _ _) = true
is_acquire _ = false

abbrev is_lock_call : Effect → Bool
is_lock_call (acquire_lock _ _ _) = true
is_lock_call unlock = true
is_lock_call _ = false

no_lock_call :
    (es : List Effect)
    → count is_lock_call es ≡ 0
    → (count is_acquire es ≡ 0) × (count is_unlock es ≡ 0)
no_lock_call [] h = (refl, refl)
no_lock_call (e ∷ es) h = ground (arith, no_lock_call es)

callback-locks :
    (id : Text) (s : Stream) (e : StreamEvent) → count is_lock_call (callback id s e).0 ≡ 0
unfolding callback after_push
callback-locks id s (on_event task_id) = refl
callback-locks id s (on_delta delta) = ground arith

callbacks-locks :
    (id : Text) (s : Stream) (es : List StreamEvent) → count is_lock_call (callbacks id s es).0 ≡ 0
unfolding callbacks
callbacks-locks id s [] = refl
callbacks-locks id s (e ∷ es) =
    let (effects, s') = callback id s e in
    omega (
      arith,
      count-append is_lock_call effects (callbacks id s' es).0,
      callback-locks id s e,
      callbacks-locks id s' es,
    )

ended-locks :
    (r : Request) (a : Answers) (s : Stream) (o : Option Failure)
    → count is_lock_call (ended r a s o) ≡ 0
unfolding ended on_error on_success upstream_failed stopped stop_effects persist_effects save finish
    after_flush
ended-locks r a s (some e) = ground arith
ended-locks r a s none = ground arith

stream-locks :
    (h : Handler) (a : Answers) (r : Request) (conversation : Text) (inputs : List (Text × Text))
    → count is_lock_call (stream h a r conversation inputs) ≡ 0
unfolding stream after_stream
stream-locks h a r conversation inputs =
    let (effects, s) = callbacks r.id (start_stream h) a.events in
    omega (
      arith,
      callbacks-locks r.id (start_stream h) a.events,
      count-append is_lock_call effects (ended r a s a.stream_error),
      ended-locks r a s a.stream_error,
    )

with_context-locks :
    (h : Handler) (a : Answers) (r : Request) (conversation : Text)
    (o : Result (List (Text × Text)))
    → count is_lock_call (with_context h a r conversation o) ≡ 0
unfolding with_context check_query give_up
with_context-locks h a r conversation (err e) = refl
with_context-locks h a r conversation (ok inputs) =
    ground (arith, stream-locks h a r conversation inputs)

with_conversation-locks :
    (h : Handler) (a : Answers) (r : Request) (o : Result Text)
    → count is_lock_call (with_conversation h a r o) ≡ 0
unfolding with_conversation give_up
with_conversation-locks h a r (err e) = refl
with_conversation-locks h a r (ok conversation) = with_context-locks h a r conversation a.build

-- The lock calls of the resolution: what is taken is given back, or is still held.
resolve-locks :
    (h : Handler) (a : Answers) (player npc client : Text)
    → let r = resolve_conversation h a player npc client in
      (count is_acquire r.effects ≤ 1)
      × (count is_unlock r.effects + (if r.locked then 1 else 0)
          ≡ (if is_some a.acquire then 0 else count is_acquire r.effects))
unfolding resolve_conversation
resolve-locks h a player npc client = ground arith

-- What a row of effects does with the lock.
abbrev pub GivesBack : Answers → List Effect → Type 0
GivesBack a es =
    (count is_acquire es ≤ 1)
    × (count is_unlock es ≡ (if is_some a.acquire then 0 else count is_acquire es))

after_allow-GivesBack :
    (h : Handler) (a : Answers) (r : Request) (client : Text) (o : Option Failure)
    → GivesBack a (after_allow h a r client o)
unfolding after_allow admitted deferred
after_allow-GivesBack h a r client (some e) = ground arith
after_allow-GivesBack h a r client none =
    let resolved = resolve_conversation h a r.player r.npc client in
    let rest = with_conversation h a r resolved.conversation in
    let quiet = no_lock_call rest (with_conversation-locks h a r resolved.conversation) in
    let tail = deferred resolved.locked in
    ground (
      arith,
      resolve-locks h a r.player r.npc client,
      count-append is_acquire resolved.effects (rest ++ tail),
      count-append is_unlock resolved.effects (rest ++ tail),
      count-append is_acquire rest tail,
      count-append is_unlock rest tail,
      quiet,
    )

-- A chat never keeps the lock of a conversation's creation, and never gives back one that it does not hold:
-- it asks for the lock at most once, unlocks once if it got it, on every path, and not at all if it did not.
pub handle_chat-GivesBack :
    (h : Handler) (a : Answers) (player : Text) (req : ChatRequest)
    → GivesBack a (handle_chat h a player req)
unfolding handle_chat checked guarded
handle_chat-GivesBack h a player req =
    let r = request_of player req in
    ground (arith, after_allow-GivesBack h a r req.conversation_id (allow_failure a.allow))
