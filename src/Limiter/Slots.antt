-- ===== src/Limiter/Slots.antt =====
-- internal/limiter/limiter.go: Allow and the in-flight leases in Redis.
use dify_game_gateway.Circuit.{Breaker}
use dify_game_gateway.Pipeline.Errors.{Failure}
use dify_game_gateway.Limiter.Entries.{length-above, length-insert_entry, length-without}
use dify_game_gateway.Limiter.Leases.{release_inflight_lem, live}
use dify_game_gateway.Limiter.Scripts.{rate_limit_script, acquire_inflight_script}
use dify_game_gateway.Limiter.Redis.{Redis, without}
use dify_game_gateway.Base.{
  true, Text, ◌≢◌, ℕ, length, ◌≡◌, arith, ◌≤◌, ◌+◌, ◌-◌, text_eq_iff, is_some, false, Bool, Option,
  trim_space, some, none, is_empty, Bool-cases, inl, inr,
}
use dify_game_gateway.Base.Int.{pos, ℤ, sub_ℕ}
use dify_game_gateway.Limiter.Guards.{
  delivered, lost_after, release_inflight, RedisLimiter, rate_key, allow_rate, acquire_inflight,
  run, inflight_key, Moment, at_least_one, member_of, budgeted, acquired, allow, Answer, admitted,
  rate_checked, deny, allow_player, cancelled, check_budget,
}

rate_key_ne : (player : Text) → rate_key player ≢ inflight_key
rate_key_ne player e = ground (arith, text_eq_iff (rate_key player) inflight_key)

module _ (redis : Redis) where
  open redis use {
    Db, zset, zset-zremrangebyscore, zset-zadd, zset-pexpire, zset-zremrangebyscore_ne,
    zset-zadd_ne, zremrangebyscore, zadd,
  }

  -- How many leases there are, expired ones included.
  abbrev pub held : RedisLimiter redis → ℕ
  held l = length (zset inflight_key l.db)

  rate_limit_script-other :
      (key : Text) (now : ℕ) (cutoff : ℤ) (limit : ℕ) (member : Text) (window : ℕ) (db : Db)
      → key ≢ inflight_key
      → zset inflight_key (rate_limit_script redis key now cutoff limit member window db).1
        ≡ zset inflight_key db
  unfolding rate_limit_script
  rate_limit_script-other key now cutoff limit member window db h =
      let purged = zremrangebyscore key cutoff db in
      let added = zadd key now member purged in
      ground (
        arith,
        zset-zremrangebyscore_ne key inflight_key cutoff db h,
        zset-zadd_ne key inflight_key now member purged h,
        zset-pexpire key inflight_key window added,
      )

  allow_rate-held :
      (l : RedisLimiter redis) (m : Moment) (player : Text)
      → held (allow_rate redis l m player).1 ≡ held l
  unfolding allow_rate run
  allow_rate-held l m player =
      let window = at_least_one l.window_ms in
      ground (
        arith,
        rate_limit_script-other (rate_key player) m.rate_ms (sub_ℕ m.rate_ms window) l.rate_limit
            (member_of redis l m.rate_ms) window l.db (rate_key_ne player),
      )

  pub release_inflight-held :
      (l : RedisLimiter redis) (m : Moment)
      → (held (release_inflight redis l m).1 ≤ held l)
        × (m.release_reply ≡ delivered → held (release_inflight redis l m).1 ≤ held l - 1)
  unfolding release_inflight run
  release_inflight-held l m = ground (
    arith,
    release_inflight_lem redis inflight_key m.release_ms l.db,
    length-above (pos m.release_ms) (zset inflight_key l.db),
  )

  acquire_inflight-held :
      (l : RedisLimiter redis) (m : Moment)
      → let (o, l') = acquire_inflight redis l m in
        (held l ≤ l.max_inflight → held l' ≤ l.max_inflight)
        × (held l' ≤ held l + 1)
        × (m.acquire_reply ≢ lost_after → is_some o ≡ true → held l' ≤ held l)
  unfolding acquire_inflight run acquire_inflight_script
  acquire_inflight-held l m =
      let lease = at_least_one l.inflight_ttl_ms in
      let token = member_of redis l m.acquire_ms in
      let purged = zremrangebyscore inflight_key (pos m.acquire_ms) l.db in
      let expiry = m.acquire_ms + lease in
      let added = zadd inflight_key expiry token purged in
      let kept = live redis inflight_key m.acquire_ms l.db in
      ground (
        arith,
        zset-zremrangebyscore inflight_key (pos m.acquire_ms) l.db,
        zset-pexpire inflight_key inflight_key lease added,
        zset-zadd inflight_key expiry token purged,
        length-insert_entry token expiry (without token kept),
        length-without token kept,
        length-above (pos m.acquire_ms) (zset inflight_key l.db),
      )

  pub acquire_inflight-max :
      (l : RedisLimiter redis) (m : Moment)
      → (acquire_inflight redis l m).1.max_inflight ≡ l.max_inflight
  unfolding acquire_inflight run
  acquire_inflight-max l m = ground arith

  -- What an answer does to the leases, from `before` of them and a limit.
  abbrev Kept : ℕ → ℕ → Moment → Answer redis → Type 0
  Kept before limit m ((passed, e), l) =
      (before ≤ limit → held l ≤ limit)
      × (passed ≡ false
          → m.acquire_reply ≢ lost_after
          → m.release_reply ≡ delivered
          → held l ≤ before)
      × (held l ≤ before + 1)

  rate_checked-Kept :
      (before limit : ℕ) (m : Moment) (o : Option Failure) (l : RedisLimiter redis)
      → (before ≤ limit → held l ≤ limit)
      → held l ≤ before + 1
      → Kept before limit m (rate_checked redis m (o, l))
  unfolding rate_checked deny cancelled
  rate_checked-Kept before limit m none l bound more = (bound, λ h. cc, more)
  rate_checked-Kept before limit m (some e) l bound more = ground (arith, release_inflight-held l m)

  acquired-Kept :
      (before limit : ℕ) (m : Moment) (player : Text) (o : Option Failure) (l : RedisLimiter redis)
      → (before ≤ limit → held l ≤ limit)
      → held l ≤ before + 1
      → (m.acquire_reply ≢ lost_after → is_some o ≡ true → held l ≤ before)
      → Kept before limit m (acquired redis m player (o, l))
  unfolding acquired deny cancelled
  acquired-Kept before limit m player (some e) l bound more same = ground arith
  acquired-Kept before limit m player none l bound more same =
      let (o, l') = allow_rate redis l m player in
      let equal = allow_rate-held l m player in
      rate_checked-Kept before limit m o l' (λ h. rw equal (bound h)) (rw equal more)

  admitted-Kept :
      (l : RedisLimiter redis) (m : Moment) (player : Text) (passed : Bool) (c : Breaker)
      → Kept (held l) l.max_inflight m (admitted redis l m player (passed, c))
  unfolding admitted deny
  admitted-Kept l m player false c = ground arith
  admitted-Kept l m player true c =
      let l' : RedisLimiter redis = record l { circuit = c } in
      let (o, l'') = acquire_inflight redis l' m in
      let (bound, more, same) = acquire_inflight-held l' m in
      acquired-Kept (held l) l.max_inflight m player o l'' bound more same

  budgeted-Kept :
      (l : RedisLimiter redis) (m : Moment) (player : Text) (o : Option Failure)
      → Kept (held l) l.max_inflight m (budgeted redis l m player o)
  unfolding budgeted deny
  budgeted-Kept l m player (some e) = ground arith
  budgeted-Kept l m player none = admitted-Kept l m player _ _

  -- Whatever Redis answers or loses, Allow keeps the in-flight leases within their limit; and a refusal
  -- leaves no lease more than before, if the acquisition did not run unseen and the release came
  -- through.
  pub allow-held :
      (l : RedisLimiter redis) (m : Moment) (player : Text) (estimate : ℤ)
      → let ((passed, e), l') = allow redis l m player estimate in
        (held l ≤ l.max_inflight → held l' ≤ l.max_inflight)
        × (passed ≡ false
            → m.acquire_reply ≢ lost_after
            → m.release_reply ≡ delivered
            → held l' ≤ held l)
  unfolding allow allow_player deny
  allow-held l m player estimate =
      let trimmed = trim_space player in
      ground (arith, budgeted-Kept l m trimmed (check_budget redis l m trimmed estimate))

  -- Allow takes one lease at most.
  pub allow-held_once :
      (l : RedisLimiter redis) (m : Moment) (player : Text) (estimate : ℤ)
      → held (allow redis l m player estimate).1 ≤ held l + 1
  unfolding allow allow_player deny
  allow-held_once l m player estimate =
      let trimmed = trim_space player in
      ground (arith, budgeted-Kept l m trimmed (check_budget redis l m trimmed estimate))

  -- Who is let in has a name.
  pub allow_named :
      (l : RedisLimiter redis) (m : Moment) (player : Text) (estimate : ℤ)
      → (allow redis l m player estimate).0.0 ≡ true
      → is_empty (trim_space player) ≡ false
  unfolding allow allow_player
  allow_named l m player estimate h = elim (Bool-cases (is_empty (trim_space player))) [
    | inl empty ↦ cc (rw empty at h)
    | inr named ↦ named
  ]
