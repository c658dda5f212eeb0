-- ===== src/Pipeline/Order.antt =====
-- internal/pipeline/handler.go: the order of the frames that a chat sends.
use dify_game_gateway.Base.{
  [], ◌∷◌, true, false, none, some, refl, Text, List, ◌≡◌, arith, Bool, Option, ◌++◌, ◌∙◌,
  Bool-cases, inl, inr, ◌⊎◌,
}
use dify_game_gateway.Wire.{ChatRequest, chunk}
use dify_game_gateway.Pipeline.Tally.{count, count-append, is_end}
use dify_game_gateway.Pipeline.Errors.{Failure, Result, ok, err}
use dify_game_gateway.Pipeline.Effects.{
  Effect, sent, on_event, on_delta, Handler, StreamEvent, Answers,
}
use dify_game_gateway.Pipeline.Stream.{
  callback, callbacks, finish, on_error, on_success, stopped, stream, after_flush, after_stream,
  upstream_failed, save, after_push, stop_effects, Request, Stream, persist_effects, start_stream,
  ended,
}
use dify_game_gateway.Pipeline.Resolve.{resolve_conversation}
use dify_game_gateway.Pipeline.Chat.{
  after_allow, with_conversation, with_context, admitted, check_query, deferred, give_up,
  handle_chat, checked, guarded, request_of, allow_failure,
}

abbrev pub is_chunk : Effect → Bool
is_chunk (sent (chunk _ _)) = true
is_chunk _ = false

-- No part of the answer is sent once a frame has ended the request.
abbrev pub IsOrdered : List Effect → Type 0
IsOrdered [] = Unit
IsOrdered (e ∷ es) = (is_end e ≡ true → count is_chunk es ≡ 0) × IsOrdered es

IsOrdered-append :
    (xs ys : List Effect)
    → IsOrdered xs
    → IsOrdered ys
    → (count is_end xs ≡ 0) ⊎ (count is_chunk ys ≡ 0)
    → IsOrdered (xs ++ ys)
IsOrdered-append [] ys ox oy h = oy
IsOrdered-append (x ∷ xs) ys (first, ox) oy h = elim (Bool-cases (is_end x)) [
  | inl end ↦
      let quiet : count is_chunk ys ≡ 0 = ground arith in
      (
        λ _. count-append is_chunk xs ys ∙ ground (arith, first end),
        IsOrdered-append xs ys ox oy (inr quiet),
      )
  | inr other ↦ (λ e. ground arith, IsOrdered-append xs ys ox oy (ground arith))
]

-- Effects that send no part of the answer are in order.
no_chunk-IsOrdered : (es : List Effect) → count is_chunk es ≡ 0 → IsOrdered es
no_chunk-IsOrdered [] h = tt
no_chunk-IsOrdered (e ∷ es) h = (λ _. ground arith, no_chunk-IsOrdered es (ground arith))

no_end-IsOrdered : (es : List Effect) → count is_end es ≡ 0 → IsOrdered es
no_end-IsOrdered [] h = tt
no_end-IsOrdered (e ∷ es) h = (λ end. ground arith, no_end-IsOrdered es (ground arith))

-- A callback ends the request exactly as it blocks the stream, and a blocked one sends nothing.
callback-blocked :
    (id : Text) (s : Stream) (e : StreamEvent)
    → let (es, s') = callback id s e in
      IsOrdered es
      × (s.output_blocked ≡ true → (count is_chunk es ≡ 0) × (s'.output_blocked ≡ true))
      × (s'.output_blocked ≡ false → count is_end es ≡ 0)
      × (s.output_blocked ≡ true → count is_end es ≡ 0)
unfolding callback after_push
callback-blocked id s (on_event task_id) = ground arith
callback-blocked id s (on_delta delta) = ground arith

callbacks-blocked :
    (id : Text) (s : Stream) (es : List StreamEvent)
    → let (effects, s') = callbacks id s es in
      IsOrdered effects
      × (s.output_blocked ≡ true → (count is_chunk effects ≡ 0) × (s'.output_blocked ≡ true))
      × (s'.output_blocked ≡ false → count is_end effects ≡ 0)
unfolding callbacks
callbacks-blocked id s [] = (tt, λ b. (refl, b), λ _. refl)
callbacks-blocked id s (e ∷ es) =
    let (first, s') = callback id s e in
    let (rest, last) = callbacks id s' es in
    let (ordered, stays, opens, _) = callback-blocked id s e in
    let (ordered', stays', opens') = callbacks-blocked id s' es in
    elim (Bool-cases s'.output_blocked) [
      | inl blocked ↦
          let (quiet, still) = stays' blocked in
          (
            IsOrdered-append first rest ordered ordered' (inr quiet),
            λ b. (count-append is_chunk first rest ∙ ground (arith, stays b), still),
            λ o. ground arith,
          )
      | inr open_ ↦ (
        IsOrdered-append first rest ordered ordered' (inl (opens open_)),
        λ b. ground (arith, stays b),
        λ o. count-append is_end first rest ∙ ground (arith, opens open_, opens' o),
      )
    ]

-- What follows the stream; it sends nothing of the answer if the stream was blocked.
ended-blocked :
    (r : Request) (a : Answers) (s : Stream) (o : Option Failure)
    → IsOrdered (ended r a s o) × (s.output_blocked ≡ true → count is_chunk (ended r a s o) ≡ 0)
unfolding ended on_error on_success upstream_failed stopped stop_effects persist_effects save finish
    after_flush
ended-blocked r a s (some e) = ground arith
ended-blocked r a s none = ground arith

stream-IsOrdered :
    (h : Handler) (a : Answers) (r : Request) (conversation : Text) (inputs : List (Text × Text))
    → IsOrdered (stream h a r conversation inputs)
unfolding stream after_stream
stream-IsOrdered h a r conversation inputs =
    let (effects, s) = callbacks r.id (start_stream h) a.events in
    let (ordered, _, opens) = callbacks-blocked r.id (start_stream h) a.events in
    let (ordered', quiet) = ended-blocked r a s a.stream_error in
    elim (Bool-cases s.output_blocked) [
      | inl blocked ↦ (λ e. cc, IsOrdered-append effects _ ordered ordered' (inr (quiet blocked)))
      | inr open_ ↦ (λ e. cc, IsOrdered-append effects _ ordered ordered' (inl (opens open_)))
    ]

with_context-IsOrdered :
    (h : Handler) (a : Answers) (r : Request) (conversation : Text)
    (o : Result (List (Text × Text)))
    → IsOrdered (with_context h a r conversation o)
unfolding with_context check_query give_up
with_context-IsOrdered h a r conversation (err e) = ground arith
with_context-IsOrdered h a r conversation (ok inputs) =
    ground (arith, stream-IsOrdered h a r conversation inputs)

with_conversation-IsOrdered :
    (h : Handler) (a : Answers) (r : Request) (o : Result Text)
    → IsOrdered (with_conversation h a r o)
unfolding with_conversation give_up
with_conversation-IsOrdered h a r (err e) = ground arith
with_conversation-IsOrdered h a r (ok conversation) =
    (λ e. cc, with_context-IsOrdered h a r conversation a.build)

resolve-no_end :
    (h : Handler) (a : Answers) (player npc client : Text)
    → count is_end (resolve_conversation h a player npc client).effects ≡ 0
unfolding resolve_conversation
resolve-no_end h a player npc client = ground arith

after_allow-IsOrdered :
    (h : Handler) (a : Answers) (r : Request) (client : Text) (o : Option Failure)
    → IsOrdered (after_allow h a r client o)
unfolding after_allow admitted deferred
after_allow-IsOrdered h a r client (some e) = ground arith
after_allow-IsOrdered h a r client none =
    let resolved = resolve_conversation h a r.player r.npc client in
    let rest = with_conversation h a r resolved.conversation in
    let silent = resolve-no_end h a r.player r.npc client in
    let tail : count is_chunk (deferred resolved.locked) ≡ 0 = ground arith in
    IsOrdered-append resolved.effects _ (no_end-IsOrdered _ silent)
      (IsOrdered-append rest _ (with_conversation-IsOrdered h a r resolved.conversation)
        (no_chunk-IsOrdered _ tail) (inr tail))
      (inl silent)

-- A client gets no more of an answer once its request has ended: on every path of HandleChat, whatever the
-- upstream sends and the moderation blocks, no chunk follows a done, an error or a blocked frame.
pub handle_chat-IsOrdered :
    (h : Handler) (a : Answers) (player : Text) (req : ChatRequest)
    → IsOrdered (handle_chat h a player req)
unfolding handle_chat checked guarded
handle_chat-IsOrdered h a player req =
    let r = request_of player req in
    ground (arith, after_allow-IsOrdered h a r req.conversation_id (allow_failure a.allow))
