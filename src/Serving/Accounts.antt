-- ===== src/Serving/Accounts.antt =====
-- internal/limiter/limiter.go: what the calls that give a slot back do to the leases and the breaker.
use dify_game_gateway.Base.{
  refl, ap, ◌∙◌, [], ◌∷◌, true, false, inl, inr, Text, List, ◌≡◌, ◌≤◌, ◌<◌, ◌-◌, ◌⊎◌, arith, Bool,
  is_empty, trim_space, Bool-cases, eq_of_text_eq, subst, sym, ℕ, ap, ◌∙◌,
}
use dify_game_gateway.Base.Int.{ℤ, is_negative}
use dify_game_gateway.Circuit.{Breaker, record_outcome, cancel_probe}
use dify_game_gateway.Circuit.Invariant.{IsValid, record_outcome-IsValid, cancel_probe-IsValid}
use dify_game_gateway.Pipeline.Tally.{count, is_settle}
use dify_game_gateway.Pipeline.Effects.{
  Effect, limiter_record, limiter_record_failure, limiter_release,
}
use dify_game_gateway.Limiter.Redis.{Redis}
use dify_game_gateway.Limiter.Guards.{
  RedisLimiter, Moment, delivered, record_usage, record_failure, release, record_tokens,
  release_inflight, run, cancelled, budget_key, inflight_key, at_least_one,
}
use dify_game_gateway.Limiter.Slots.{held, release_inflight-held}
use dify_game_gateway.Limiter.Admission.{release_inflight-circuit, cancel_probe-inactive}
use dify_game_gateway.Serving.{Moments, perform, perform_all}
use dify_game_gateway.Serving.Owners.{is_foreign}

-- A player's name that is not empty once it is trimmed.
abbrev pub IsNamed : Text → Type 0
IsNamed player = is_empty (trim_space player) ≡ false

module _ (redis : Redis) where
  open redis use {Db, zset, incrby, zset-pexpire, zset-incrby}

  record_tokens-held :
      (l : RedisLimiter redis) (m : Moment) (player : Text) (tokens : ℤ)
      → held redis (record_tokens redis l m player tokens).1 ≡ held redis l
  unfolding record_tokens run
  record_tokens-held l m player tokens =
      let key = budget_key player m.day in
      ground (
        arith,
        zset-pexpire key inflight_key (at_least_one m.budget_ttl_ms) (incrby key tokens l.db),
        zset-incrby key inflight_key tokens l.db,
      )

  record_tokens-circuit :
      (l : RedisLimiter redis) (m : Moment) (player : Text) (tokens : ℤ)
      → (record_tokens redis l m player tokens).1.circuit ≡ l.circuit
  unfolding record_tokens run
  record_tokens-circuit l m player tokens = ground arith

  -- What a call that gives a slot back leaves, from the leases and the breaker before it.
  abbrev Settled : Moment → RedisLimiter redis → RedisLimiter redis → Type 0
  Settled m l l' =
      (held redis l' ≤ held redis l)
      × (m.release_reply ≡ delivered → held redis l' ≤ held redis l - 1)
      × (IsValid l.circuit → IsValid l'.circuit × (l'.circuit.probe_active ≡ false))

  record_outcome-inactive :
      (c : Breaker) (success : Bool) (now : ℕ)
      → IsValid c
      → (record_outcome c success now).probe_active ≡ false
  unfolding record_outcome
  record_outcome-inactive c success now v = ground arith

  outcome-Settled :
      (l : RedisLimiter redis) (m : Moment) (success : Bool)
      → let l' = (release_inflight redis l m).1 in
        Settled m l (record l' { circuit = record_outcome l'.circuit success m.outcome_at })
  outcome-Settled l m success =
      let l' = (release_inflight redis l m).1 in
      let (less, one) = release_inflight-held redis l m in
      let same = release_inflight-circuit redis l m in
      (
        less,
        one,
        λ v.
            let v' = subst IsValid (sym same) v in
            (
              record_outcome-IsValid l'.circuit success m.outcome_at v',
              record_outcome-inactive l'.circuit success m.outcome_at v',
            ),
      )

  record_failure-Settled :
      (l : RedisLimiter redis) (m : Moment) → Settled m l (record_failure redis l m).1
  unfolding record_failure
  record_failure-Settled l m = outcome-Settled l m false

  release-Settled : (l : RedisLimiter redis) (m : Moment) → Settled m l (release redis l m).1
  unfolding release cancelled
  release-Settled l m =
      let l' : RedisLimiter redis = record l { circuit = cancel_probe l.circuit } in
      let (less, one) = release_inflight-held redis l' m in
      let same = sym (release_inflight-circuit redis l' m) in
      (
        less,
        one,
        λ v. (
          subst IsValid same (cancel_probe-IsValid l.circuit v),
          subst (λ (c : Breaker). c.probe_active ≡ false) same
              (cancel_probe-inactive redis l.circuit v),
        ),
      )

  Settled-same :
      (m : Moment) (l x y : RedisLimiter redis)
      → held redis y ≡ held redis x
      → y.circuit ≡ x.circuit
      → Settled m l x
      → Settled m l y
  Settled-same m l x y equal same (less, one, sound) = (
    omega arith,
    λ d. (let h = one d in omega arith),
    λ v. (
      subst IsValid (sym same) (sound v).0,
      subst (λ (c : Breaker). c.probe_active ≡ false) (sym same) (sound v).1,
    ),
  )

  record_usage-Settled :
      (l : RedisLimiter redis) (m : Moment) (player : Text) (tokens : ℤ)
      → IsNamed player
      → Settled m l (record_usage redis l m player tokens).1
  unfolding record_usage
  record_usage-Settled l m player tokens named =
      let l' = (release_inflight redis l m).1 in
      let l'' : RedisLimiter redis = record l' {
        circuit = record_outcome l'.circuit true m.outcome_at;
      } in
      let done = outcome-Settled l m true in
      elim (Bool-cases (is_negative tokens)) [
        | inl negative ↦ rw (named, negative) done
        | inr fine ↦
            rw (named, fine)
              (Settled-same m l l'' (record_tokens redis l'' m (trim_space player) tokens).1
                (record_tokens-held l'' m (trim_space player) tokens)
                (record_tokens-circuit l'' m (trim_space player) tokens) done)
      ]

  perform-Settled :
      (m : Moments) (l : RedisLimiter redis) (player : Text) (e : Effect)
      → IsNamed player
      → is_foreign player e ≡ false
      → is_settle e ≡ true
      → Settled m.leaving l (perform redis m l e)
  unfolding perform
  perform-Settled m l player (limiter_record p tokens) named own s =
      record_usage-Settled l m.leaving p tokens
        (subst IsNamed (sym (eq_of_text_eq p player (ground arith))) named)
  perform-Settled m l player limiter_record_failure named own s = record_failure-Settled l m.leaving
  perform-Settled m l player limiter_release named own s = release-Settled l m.leaving
  perform-Settled m l player _ named own s = cc

  perform_idle :
      (m : Moments) (l : RedisLimiter redis) (player : Text) (e : Effect)
      → is_foreign player e ≡ false
      → is_settle e ≡ false
      → perform redis m l e ≡ l
  unfolding perform
  perform_idle m l player e own s = ground arith

  -- Effects that call no method of the limiter.
  pub perform_all_idle :
      (m : Moments) (l : RedisLimiter redis) (player : Text) (es : List Effect)
      → count (is_foreign player) es ≡ 0
      → count is_settle es ≡ 0
      → perform_all redis m l es ≡ l
  unfolding perform_all
  perform_all_idle m l player [] own idle = refl
  perform_all_idle m l player (e ∷ es) own idle =
      let same = perform_idle m l player e (ground arith) (ground arith) in
      ap (λ l'. perform_all redis m l' es) same
      ∙ perform_all_idle m l player es (ground arith) (ground arith)

  -- The effects that follow the answer of Allow never take a slot, and give one back for each call that
  -- settles, if the releases come through.
  pub perform_all-held :
      (m : Moments) (l : RedisLimiter redis) (player : Text) (es : List Effect)
      → IsNamed player
      → count (is_foreign player) es ≡ 0
      → (held redis (perform_all redis m l es) ≤ held redis l)
        × (m.leaving.release_reply ≡ delivered
            → held redis (perform_all redis m l es) ≤ held redis l - count is_settle es)
  unfolding perform_all
  perform_all-held m l player [] named own = ground arith
  perform_all-held m l player (e ∷ es) named own = elim (Bool-cases (is_settle e)) [
    | inl settles ↦
        let l' = perform redis m l e in
        let (less, one, _) = perform-Settled m l player e named (ground arith) settles in
        let (rest, rest_less) = perform_all-held m l' player es named (ground arith) in
        rw settles (omega arith, λ d. (let a = one d in let b = rest_less d in omega arith))
    | inr idle ↦
        let same = perform_idle m l player e (ground arith) idle in
        rw (idle, perform_all, same) (perform_all-held m l player es named (ground arith))
  ]

  -- A breaker that is valid stays so; and no probe is out at the end, if none was out before or if a
  -- call has settled.
  pub perform_all-NoProbe :
      (m : Moments) (l : RedisLimiter redis) (player : Text) (es : List Effect)
      → IsNamed player
      → count (is_foreign player) es ≡ 0
      → IsValid l.circuit
      → let c = (perform_all redis m l es).circuit in
        IsValid c
        × ((l.circuit.probe_active ≡ false) ⊎ (0 < count is_settle es) → c.probe_active ≡ false)
  unfolding perform_all
  perform_all-NoProbe m l player [] named own v =
      (v, λ h. elim h [ inl p ↦ p | inr p ↦ elim p [ ] ])
  perform_all-NoProbe m l player (e ∷ es) named own v = elim (Bool-cases (is_settle e)) [
    | inl settles ↦
        let l' = perform redis m l e in
        let (_, _, sound) = perform-Settled m l player e named (ground arith) settles in
        let (v', off) = sound v in
        let (last, none_out) = perform_all-NoProbe m l' player es named (ground arith) v' in
        (last, λ _. none_out (inl off))
    | inr idle ↦
        let same = perform_idle m l player e (ground arith) idle in
        rw (idle, perform_all, same) (perform_all-NoProbe m l player es named (ground arith) v)
  ]
