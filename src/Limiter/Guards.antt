-- ===== src/Limiter/Guards.antt =====
-- internal/limiter/limiter.go: the methods of RedisLimiter. A method takes the readings that it makes
-- of the clock, and for each call of Redis how it went: a call that fails may have run all the same.
use dify_game_gateway.Circuit
use dify_game_gateway.Limiter.Scripts.{
  acquire_inflight_script, rate_limit_script, release_inflight_script,
}
use dify_game_gateway.Circuit.{cancel_probe, Breaker, is_zero_ℤ, record_outcome, ready}
use dify_game_gateway.Limiter.Redis.{Redis}
use dify_game_gateway.Base.{
  ◌∷◌, none, some, true, false, ℕ, Text, text, Bool, Option, ◌++◌, ◌+◌, if◌then◌else◌, trim_space,
  is_empty, ltb, ◌==◌, ◌%◌, decimal, ◌^◌, not,
}
use dify_game_gateway.Base.Int.{pos, ℤ, atoi, ltb_ℤ, wrap_int64, is_negative, sub_ℕ, ◌+ℤ◌}
use dify_game_gateway.Pipeline.Errors.{
  Failure, rate_limited, budget_exceeded, inflight_full, circuit_open, other,
}

pub data Reply : Type 0 where
  delivered lost_before lost_after : Reply

-- What a method reads and meets on its way. Times of the breaker are nanoseconds, those of the
-- scripts Unix milliseconds; `day` is the UTC date as budgetKey formats it.
pub record Moment : Type 0 where
  pub ready_at : ℕ
  pub checked_at : ℕ
  pub started_at : ℕ
  pub day : Text
  pub acquire_ms : ℕ
  pub rate_ms : ℕ
  pub release_ms : ℕ
  pub outcome_at : ℕ
  pub budget_ttl_ms : ℕ
  pub get_reply : Reply
  pub acquire_reply : Reply
  pub rate_reply : Reply
  pub release_reply : Reply
  pub record_reply : Reply

abbrev pub rate_key : Text → Text
rate_key player = text "rate:" ++ player

abbrev pub budget_key : Text → Text → Text
budget_key player day = text "budget:" ++ (player ++ b':' ∷ day)

abbrev pub inflight_key : Text
inflight_key = text "inflight:upstream"

-- A duration in milliseconds, and at least one.
abbrev pub at_least_one : ℕ → ℕ
at_least_one ms = if ltb ms 1 then 1 else ms

module _ (redis : Redis) where
  open redis use {Db, get, incrby, pexpire}

  pub record RedisLimiter : Type 0 where
    pub db : Db
    pub rate_limit : ℕ
    pub window_ms : ℕ
    pub token_budget : ℤ
    pub max_inflight : ℕ
    pub inflight_ttl_ms : ℕ
    pub circuit : Breaker
    pub instance_id : Text
    pub member_serial : ℕ  -- uint64
    pub inflight_gauge : ℕ  -- telemetry.InflightUpstream
    pub rate_limited_total : ℕ  -- telemetry.RateLimitedTotal

  -- A script's answer, if the caller gets it, and the state that it leaves.
  unfoldable pub run {ℓ} : {A : Type ℓ} → Reply → (Db → A × Db) → Db → Option A × Db
  run delivered script db = let (a, db') = script db in (some a, db')
  run lost_before script db = (none, db)
  run lost_after script db = (none, (script db).1)

  abbrev pub next_serial : RedisLimiter → ℕ
  next_serial l = (l.member_serial + 1) % 2 ^ 64

  -- The member of an entry: its process, its time and its serial number.
  unfoldable pub member_of : RedisLimiter → ℕ → Text
  member_of l now_ms = l.instance_id ++ (b':' ∷ (decimal now_ms ++ b':' ∷ decimal (next_serial l)))

  unfoldable pub after_acquire :
      RedisLimiter → Option (Option ℕ) × Db → Option Failure × RedisLimiter
  after_acquire l (none, db) = (some other, record l { db = db })
  after_acquire l (some none, db) = (some inflight_full, record l { db = db })
  after_acquire l (some (some n), db) = (none, record l { db = db; inflight_gauge = n })

  unfoldable pub acquire_inflight : RedisLimiter → Moment → Option Failure × RedisLimiter
  unfolding after_acquire
  acquire_inflight l m =
      let lease = at_least_one l.inflight_ttl_ms in
      let token = member_of l m.acquire_ms in
      after_acquire (record l { member_serial = next_serial l })
        (run m.acquire_reply
          (acquire_inflight_script redis inflight_key m.acquire_ms l.max_inflight
            (m.acquire_ms + lease) token lease)
          l.db)

  unfoldable pub after_release : RedisLimiter → Option ℕ × Db → Option Failure × RedisLimiter
  after_release l (none, db) = (some other, record l { db = db })
  after_release l (some n, db) = (none, record l { db = db; inflight_gauge = n })

  unfoldable pub release_inflight : RedisLimiter → Moment → Option Failure × RedisLimiter
  unfolding after_release
  release_inflight l m =
      after_release l
        (run m.release_reply (release_inflight_script redis inflight_key m.release_ms) l.db)

  unfoldable pub after_rate : RedisLimiter → Option ℕ × Db → Option Failure × RedisLimiter
  after_rate l (none, db) = (some other, record l { db = db })
  after_rate l (some answer, db) =
      (if answer == 0 then some rate_limited else none, record l { db = db })

  unfoldable pub allow_rate : RedisLimiter → Moment → Text → Option Failure × RedisLimiter
  unfolding after_rate
  allow_rate l m player =
      let window = at_least_one l.window_ms in
      let member = member_of l m.rate_ms in
      after_rate (record l { member_serial = next_serial l })
        (run m.rate_reply
          (rate_limit_script redis (rate_key player) m.rate_ms (sub_ℕ m.rate_ms window) l.rate_limit
            member window)
          l.db)

  -- currentBudget: no key is 0; a failed call, and a value that is no number, is an error.
  unfoldable pub current_from : Reply → Option Text → Option ℤ
  current_from delivered none = some (pos 0)
  current_from delivered (some value) = atoi value
  current_from _ value = none

  unfoldable pub over_budget : RedisLimiter → ℤ → Option ℤ → Option Failure
  over_budget l estimate none = some other
  over_budget l estimate (some current) =
      if ltb_ℤ l.token_budget (wrap_int64 (current +ℤ estimate)) then some budget_exceeded else none

  unfoldable pub check_budget : RedisLimiter → Moment → Text → ℤ → Option Failure
  unfolding over_budget current_from
  check_budget l m player estimate =
      over_budget l estimate (current_from m.get_reply (get (budget_key player m.day) l.db))

  abbrev pub Answer : Type 0
  Answer = (Bool × Option Failure) × RedisLimiter

  -- A refusal by one of the limits is counted; one by an error is not.
  abbrev pub is_limit : Failure → Bool
  is_limit other = false
  is_limit _ = true

  unfoldable pub deny : RedisLimiter → Failure → Answer
  deny l e = (
    (false, some e),
    if is_limit e then record l { rate_limited_total = l.rate_limited_total + 1 } else l,
  )

  unfoldable pub cancelled : RedisLimiter → RedisLimiter
  cancelled l = record l { circuit = cancel_probe l.circuit }

  unfoldable pub rate_checked : Moment → Option Failure × RedisLimiter → Answer
  rate_checked m (none, l) = ((true, none), l)
  rate_checked m (some e, l) = deny (cancelled (release_inflight l m).1) e

  unfoldable pub acquired : Moment → Text → Option Failure × RedisLimiter → Answer
  acquired m player (some e, l) = deny (cancelled l) e
  acquired m player (none, l) = rate_checked m (allow_rate l m player)

  unfoldable pub admitted : RedisLimiter → Moment → Text → Bool × Breaker → Answer
  admitted l m player (false, c) = deny (record l { circuit = c }) circuit_open
  admitted l m player (true, c) =
      let l' = record l { circuit = c } in acquired m player (acquire_inflight l' m)

  unfoldable pub budgeted : RedisLimiter → Moment → Text → Option Failure → Answer
  budgeted l m player (some e) = deny l e
  budgeted l m player none = admitted l m player (Circuit.allow l.circuit m.checked_at m.started_at)

  unfoldable pub allow_player : RedisLimiter → Moment → Text → ℤ → Answer
  allow_player l m player estimate =
      if is_empty player
      then ((false, some other), l)
      else if is_negative estimate
      then ((false, some other), l)
      else if not (ready l.circuit m.ready_at)
      then deny l circuit_open
      else budgeted l m player (check_budget l m player estimate)

  unfoldable pub allow : RedisLimiter → Moment → Text → ℤ → Answer
  unfolding allow_player budgeted admitted acquired rate_checked cancelled deny
  allow l m player estimate = allow_player l m (trim_space player) estimate

  unfoldable pub after_record : Option ℕ × Db → RedisLimiter → Option Failure × RedisLimiter
  after_record (none, db) l = (some other, record l { db = db })
  after_record (some _, db) l = (none, record l { db = db })

  -- recordBudgetScript; its answer is not used.
  unfoldable pub record_budget_script : Text → ℤ → ℕ → Db → ℕ × Db
  record_budget_script key tokens ttl_ms db = (0, pexpire key ttl_ms (incrby key tokens db))

  unfoldable pub record_tokens : RedisLimiter → Moment → Text → ℤ → Option Failure × RedisLimiter
  unfolding after_record record_budget_script
  record_tokens l m player tokens =
      if is_zero_ℤ tokens
      then (none, l)
      else after_record
          (run m.record_reply
            (record_budget_script (budget_key player m.day) tokens (at_least_one m.budget_ttl_ms))
            l.db)
          l

  unfoldable pub or_else : Option Failure → Option Failure → Option Failure
  or_else (some e) _ = some e
  or_else none o = o

  -- The slot first, then the breaker, then the tokens; the first error is the answer.
  unfoldable pub recorded :
      Moment → Text → ℤ → Option Failure × RedisLimiter → Option Failure × RedisLimiter
  recorded m player tokens (released, l) =
      let l' = record l { circuit = record_outcome l.circuit true m.outcome_at } in
      let (error, l'') = record_tokens l' m player tokens in
      if is_negative tokens
      then (or_else released (some other), l')
      else (or_else released error, l'')

  unfoldable pub record_usage : RedisLimiter → Moment → Text → ℤ → Option Failure × RedisLimiter
  unfolding recorded record_tokens or_else
  record_usage l m player tokens =
      if is_empty (trim_space player)
      then (some other, l)
      else recorded m (trim_space player) tokens (release_inflight l m)

  unfoldable pub record_failure : RedisLimiter → Moment → Option Failure × RedisLimiter
  record_failure l m =
      let (error, l') = release_inflight l m in
      (error, record l' { circuit = record_outcome l'.circuit false m.outcome_at })

  unfoldable pub release : RedisLimiter → Moment → Option Failure × RedisLimiter
  unfolding cancelled
  release l m = release_inflight (cancelled l) m
