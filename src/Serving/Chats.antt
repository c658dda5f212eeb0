-- ===== src/Serving/Chats.antt =====
-- internal/pipeline/handler.go over internal/limiter/limiter.go: what a whole chat leaves in the limiter.
use dify_game_gateway.Base.{
  true, false, refl, inl, inr, Text, List, ◌≡◌, ◌≢◌, ◌≤◌, ◌⊎◌, arith, Bool, if◌then◌else◌, ap, ◌∙◌,
}
use dify_game_gateway.Base.Int.{pos}
use dify_game_gateway.Wire.{ChatRequest}
use dify_game_gateway.Circuit.Invariant.{IsValid}
use dify_game_gateway.Pipeline.Tally.{count, is_settle}
use dify_game_gateway.Pipeline.Effects.{Effect, Handler, Answers}
use dify_game_gateway.Pipeline.Stream.{Request}
use dify_game_gateway.Pipeline.Chat.{
  handle_chat, checked, guarded, after_allow, allow_failure, request_of,
}
use dify_game_gateway.Pipeline.Slots.{is_granted, after_allow-settles}
use dify_game_gateway.Limiter.Redis.{Redis}
use dify_game_gateway.Limiter.Guards.{RedisLimiter, delivered, lost_after, allow}
use dify_game_gateway.Limiter.Slots.{held, allow-held, allow-held_once, allow_named}
use dify_game_gateway.Limiter.Admission.{allow-NoProbe, allow-IsValid_circuit}
use dify_game_gateway.Serving.{Moments, perform, perform_all, answered, serve}
use dify_game_gateway.Serving.Owners.{is_foreign, after_allow-foreign}
use dify_game_gateway.Serving.Accounts.{perform_all-held, perform_all-NoProbe, perform_all_idle}

-- Allow's answers are a pass without an error, and a refusal.
granted_of_passed :
    (redis : Redis) (l : RedisLimiter redis) (m : Moments) (player : Text)
    → let answer = (allow redis l m.entering player (pos 0)).0 in
      ((answer.0 ≡ false) × (is_granted answer ≡ false))
      ⊎ ((answer.0 ≡ true) × (is_granted answer ≡ true))
unfolding allow
granted_of_passed redis l m player = ground arith

-- A request either reaches Allow, or leaves the limiter alone.
checked-cases :
    (h : Handler) (a : Answers) (r : Request) (client player : Text)
    → (checked h a r client ≡ guarded h a r client)
      ⊎ ((count (is_foreign player) (checked h a r client) ≡ 0)
          × (count is_settle (checked h a r client) ≡ 0))
unfolding checked
checked-cases h a r client player = ground arith

module _ (redis : Redis) (h : Handler) (a : Answers) (l : RedisLimiter redis) (m : Moments)
    (player : Text) (req : ChatRequest) where
  -- What Allow leaves.
  abbrev entered : RedisLimiter redis
  entered = (allow redis l m.entering player (pos 0)).1

  abbrev is_let_in : Bool
  is_let_in = (allow redis l m.entering player (pos 0)).0.0

  -- How a chat ends for the limiter: not asked, refused, or let in and settled once.
  serve-cases :
      ((serve redis h a l m player req).1 ≡ l)
      ⊎ ((is_let_in ≡ false) × ((serve redis h a l m player req).1 ≡ entered))
      ⊎ ((is_let_in ≡ true)
          × (es : List Effect) × ((serve redis h a l m player req).1
              ≡ perform_all redis m entered es)
          × (count (is_foreign player) es ≡ 0)
          × (count is_settle es ≡ 1))
  unfolding serve handle_chat request_of guarded perform
  serve-cases =
      let a' = answered redis a l m player in
      let r : Request = request_of player req in
      let es = after_allow h a' r req.conversation_id (allow_failure a'.allow) in
      let own = after_allow-foreign r h a' req.conversation_id (allow_failure a'.allow) in
      let settles = after_allow-settles h a' r req.conversation_id in
      elim (checked-cases h a' r req.conversation_id player) [
        | inr (foreign, idle) ↦
            inl
              (perform_all_idle redis m l player (checked h a' r req.conversation_id) foreign idle)
        | inl asked ↦ elim (granted_of_passed redis l m player) [
          | inl (refused, denied) ↦ inr (
              inl (
                refused,
                ap (perform_all redis m l) asked
                    ∙ perform_all_idle redis m entered player es own
                        (settles ∙ ap (λ b. if b then 1 else 0) denied),
              ))
          | inr (passed, granted) ↦ inr (
              inr (
                passed,
                es,
                ap (perform_all redis m l) asked,
                own,
                settles ∙ ap (λ b. if b then 1 else 0) granted,
              ))
        ]
      ]

  -- The limit of the in-flight slots is kept by a whole chat, whatever its upstream, its store and Redis do.
  pub serve-held_limit :
      held redis l ≤ l.max_inflight → held redis (serve redis h a l m player req).1 ≤ l.max_inflight
  serve-held_limit fits =
      let kept = (allow-held redis l m.entering player (pos 0)).0 fits in
      elim serve-cases [
        | inl same ↦ rw same fits
        | inr (inl (_, same)) ↦ rw same kept
        | inr (inr (passed, es, same, own, _)) ↦
            let named = allow_named redis l m.entering player (pos 0) passed in
            let less = (perform_all-held redis m entered player es named own).0 in
            rw same (omega arith)
      ]

  -- A chat leaks no slot: when it is over, no more leases are held than before it, on every path of the
  -- handler and for every answer of its upstream and its store, if no acquisition ran in Redis with its
  -- answer lost and the releases came through.
  pub serve-held :
      m.entering.acquire_reply ≢ lost_after
      → m.entering.release_reply ≡ delivered
      → m.leaving.release_reply ≡ delivered
      → held redis (serve redis h a l m player req).1 ≤ held redis l
  serve-held seen given_back released = elim serve-cases [
    | inl same ↦ rw same (omega arith)
    | inr (inl (refused, same)) ↦
        rw same ((allow-held redis l m.entering player (pos 0)).1 refused seen given_back)
    | inr (inr (passed, es, same, own, once)) ↦
        let named = allow_named redis l m.entering player (pos 0) passed in
        let less = (perform_all-held redis m entered player es named own).1 released in
        let more = allow-held_once redis l m.entering player (pos 0) in rw same (omega arith)
  ]

  -- A chat strands no probe: when it is over, the breaker is valid as it was before, and it is unchanged or
  -- has no probe out.
  pub serve-NoProbe :
      IsValid l.circuit
      → let c = (serve redis h a l m player req).1.circuit in
        IsValid c × ((c ≡ l.circuit) ⊎ (c.probe_active ≡ false))
  serve-NoProbe v =
      let v' = allow-IsValid_circuit redis l m.entering player (pos 0) v in
      elim serve-cases [
        | inl same ↦ rw same (v, inl refl)
        | inr (inl (refused, same)) ↦
            rw same (v', allow-NoProbe redis l m.entering player (pos 0) v refused)
        | inr (inr (passed, es, same, own, once)) ↦
            let named = allow_named redis l m.entering player (pos 0) passed in
            let (last, off) = perform_all-NoProbe redis m entered player es named own v' in
            rw same (last, inr (off (inr (omega arith))))
      ]
