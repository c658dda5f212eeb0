-- ===== src/Limiter/Admission.antt =====
-- internal/limiter/limiter.go: what a refusal by Allow leaves in the breaker.
use dify_game_gateway.Base.Int.{ℤ}
use dify_game_gateway.Circuit.Probe.{allow_refused}
use dify_game_gateway.Pipeline.Errors.{Failure}
use dify_game_gateway.Circuit.Invariant.{IsValid, allow-IsValid, cancel_probe-IsValid}
use dify_game_gateway.Circuit.{Breaker, cancel_probe}
use dify_game_gateway.Limiter.Redis.{Redis}
use dify_game_gateway.Base.{
  ◌≡◌, Text, arith, false, ◌⊎◌, none, some, true, Option, subst, sym, Bool, inl, refl, trim_space,
}
use dify_game_gateway.Limiter.Guards.{
  allow_rate, acquire_inflight, release_inflight, run, RedisLimiter, Moment, Answer, deny,
  rate_checked, acquired, cancelled, admitted, budgeted, allow, allow_player, check_budget,
}

module _ (redis : Redis) where
  open redis use {Db, zset}

  pub release_inflight-circuit :
      (l : RedisLimiter redis) (m : Moment) → (release_inflight redis l m).1.circuit ≡ l.circuit
  unfolding release_inflight run
  release_inflight-circuit l m = ground arith

  allow_rate-circuit :
      (l : RedisLimiter redis) (m : Moment) (player : Text)
      → (allow_rate redis l m player).1.circuit ≡ l.circuit
  unfolding allow_rate run
  allow_rate-circuit l m player = ground arith

  acquire_inflight-circuit :
      (l : RedisLimiter redis) (m : Moment) → (acquire_inflight redis l m).1.circuit ≡ l.circuit
  unfolding acquire_inflight run
  acquire_inflight-circuit l m = ground arith

  pub cancel_probe-inactive : (c : Breaker) → IsValid c → (cancel_probe c).probe_active ≡ false
  unfolding cancel_probe
  cancel_probe-inactive c v = ground arith

  -- What an answer leaves in the breaker, if it is a refusal.
  abbrev NoProbe : Breaker → Answer redis → Type 0
  NoProbe c ((allowed, e), l) = allowed ≡ false → (l.circuit ≡ c) ⊎ (l.circuit.probe_active ≡ false)

  rate_checked-NoProbe :
      (c : Breaker) (m : Moment) (o : Option Failure) (l : RedisLimiter redis)
      → IsValid l.circuit
      → NoProbe c (rate_checked redis m (o, l))
  unfolding rate_checked deny cancelled
  rate_checked-NoProbe c m none l v h = cc
  rate_checked-NoProbe c m (some e) l v h =
      ground (arith, release_inflight-circuit l m, cancel_probe-inactive l.circuit v)

  acquired-NoProbe :
      (c : Breaker) (m : Moment) (player : Text) (o : Option Failure) (l : RedisLimiter redis)
      → IsValid l.circuit
      → NoProbe c (acquired redis m player (o, l))
  unfolding acquired deny cancelled
  acquired-NoProbe c m player (some e) l v h = ground (arith, cancel_probe-inactive l.circuit v)
  acquired-NoProbe c m player none l v h =
      let (o, l') = allow_rate redis l m player in
      rate_checked-NoProbe c m o l' (subst IsValid (sym (allow_rate-circuit l m player)) v) h

  admitted-NoProbe :
      (l : RedisLimiter redis) (m : Moment) (player : Text) (passed : Bool) (c : Breaker)
      → (passed ≡ false → c ≡ l.circuit)
      → IsValid c
      → NoProbe l.circuit (admitted redis l m player (passed, c))
  unfolding admitted deny
  admitted-NoProbe l m player false c same v h = inl (same refl)
  admitted-NoProbe l m player true c same v h =
      let l' : RedisLimiter redis = record l { circuit = c } in
      let (o, l'') = acquire_inflight redis l' m in
      acquired-NoProbe l.circuit m player o l''
        (subst IsValid (sym (acquire_inflight-circuit l' m)) v) h

  budgeted-NoProbe :
      (l : RedisLimiter redis) (m : Moment) (player : Text) (o : Option Failure)
      → IsValid l.circuit
      → NoProbe l.circuit (budgeted redis l m player o)
  unfolding budgeted deny
  budgeted-NoProbe l m player (some e) v h = ground arith
  budgeted-NoProbe l m player none v h =
      admitted-NoProbe l m player _ _ (allow_refused l.circuit m.checked_at m.started_at)
        (allow-IsValid l.circuit m.checked_at m.started_at v) h

  -- A refused request strands no probe: whatever refuses it (a limit, a lost call of Redis, a bad
  -- argument), the breaker is left as it was, or with no probe out.
  pub allow-NoProbe :
      (l : RedisLimiter redis) (m : Moment) (player : Text) (estimate : ℤ)
      → IsValid l.circuit
      → (allow redis l m player estimate).0.0 ≡ false
      → let c = (allow redis l m player estimate).1.circuit in
        (c ≡ l.circuit) ⊎ (c.probe_active ≡ false)
  unfolding allow allow_player
  allow-NoProbe l m player estimate v h = ground (
    arith,
    budgeted-NoProbe l m (trim_space player) (check_budget redis l m (trim_space player) estimate)
        v,
  )

  rate_checked-IsValid :
      (m : Moment) (o : Option Failure) (l : RedisLimiter redis)
      → IsValid l.circuit
      → IsValid (rate_checked redis m (o, l)).1.circuit
  unfolding rate_checked deny cancelled
  rate_checked-IsValid m none l v = v
  rate_checked-IsValid m (some e) l v =
      ground (arith, release_inflight-circuit l m, cancel_probe-IsValid l.circuit v)

  acquired-IsValid :
      (m : Moment) (player : Text) (o : Option Failure) (l : RedisLimiter redis)
      → IsValid l.circuit
      → IsValid (acquired redis m player (o, l)).1.circuit
  unfolding acquired deny cancelled
  acquired-IsValid m player (some e) l v = ground (arith, cancel_probe-IsValid l.circuit v)
  acquired-IsValid m player none l v =
      let (o, l') = allow_rate redis l m player in
      rate_checked-IsValid m o l' (subst IsValid (sym (allow_rate-circuit l m player)) v)

  admitted-IsValid :
      (l : RedisLimiter redis) (m : Moment) (player : Text) (passed : Bool) (c : Breaker)
      → IsValid c
      → IsValid (admitted redis l m player (passed, c)).1.circuit
  unfolding admitted deny
  admitted-IsValid l m player false c v = v
  admitted-IsValid l m player true c v =
      let l' : RedisLimiter redis = record l { circuit = c } in
      let (o, l'') = acquire_inflight redis l' m in
      acquired-IsValid m player o l'' (subst IsValid (sym (acquire_inflight-circuit l' m)) v)

  budgeted-IsValid :
      (l : RedisLimiter redis) (m : Moment) (player : Text) (o : Option Failure)
      → IsValid l.circuit
      → IsValid (budgeted redis l m player o).1.circuit
  unfolding budgeted deny
  budgeted-IsValid l m player (some e) v = ground arith
  budgeted-IsValid l m player none v =
      admitted-IsValid l m player _ _ (allow-IsValid l.circuit m.checked_at m.started_at v)

  -- Allow keeps the breaker's invariant, whatever it answers.
  pub allow-IsValid_circuit :
      (l : RedisLimiter redis) (m : Moment) (player : Text) (estimate : ℤ)
      → IsValid l.circuit
      → IsValid (allow redis l m player estimate).1.circuit
  unfolding allow allow_player deny
  allow-IsValid_circuit l m player estimate v = ground (
    arith,
    budgeted-IsValid l m (trim_space player) (check_budget redis l m (trim_space player) estimate)
        v,
  )
