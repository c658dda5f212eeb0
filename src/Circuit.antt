-- ===== src/Circuit.antt =====
-- internal/limiter/circuit.go: the local circuit breaker. Every method runs under the breaker's
-- mutex, so it is one step from a state to the next. Times and durations are nanoseconds; `c.now()`
-- is a parameter of each method, once for each call that the method makes of it on a path.
-- A failure threshold is a ratio of integers. With `window * den` below 2^52 the comparison of the
-- two correctly rounded float64 quotients gives what the comparison of the ratios gives.
pub mod Invariant
pub mod Probe
pub mod Window
mod Tests
use dify_game_gateway.Base.{
  ℕ, suc, ◌+◌, ◌-◌, ◌*◌, Bool, true, false, not, ◌&&◌, ◌||◌, List, [], ◌∷◌, ◌++◌, ltb, leb, ◌==◌,
  if◌then◌else◌, length, drop,
}
use dify_game_gateway.Base.Int.{ℤ, pos, pos_part, leb_ℤ, ltb_ℤ}

pub data State : Type 0 where
  closed half_open open_ : State

-- The number that the telemetry gauge shows for a state.
abbrev pub gauge_of : State → ℕ
gauge_of closed = 0
gauge_of half_open = 1
gauge_of open_ = 2

-- CircuitConfig as the caller gives it, before the defaults and the checks.
pub record CircuitConfig : Type 0 where
  pub window : ℤ
  pub min_samples : ℤ
  pub threshold_num : ℤ
  pub threshold_den : ℕ
  pub open_duration : ℤ

abbrev pub default_window : ℤ
default_window = pos 20

abbrev pub default_min_samples : ℤ
default_min_samples = pos 5

-- 30 seconds.
abbrev pub default_open_duration : ℤ
default_open_duration = pos 30_000_000_000

abbrev pub is_zero_ℤ : ℤ → Bool
is_zero_ℤ a = leb_ℤ a (pos 0) && leb_ℤ (pos 0) a

abbrev pub or_default : ℤ → ℤ → ℤ
or_default a d = if is_zero_ℤ a then d else a

-- The default threshold is one half.
pub with_defaults : CircuitConfig → CircuitConfig
with_defaults cfg =
    let unset = is_zero_ℤ cfg.threshold_num in
    record {
      window = or_default cfg.window default_window;
      min_samples = or_default cfg.min_samples default_min_samples;
      threshold_num = if unset then pos 1 else cfg.threshold_num;
      threshold_den = if unset then 2 else cfg.threshold_den;
      open_duration = or_default cfg.open_duration default_open_duration;
    }

-- The configuration once it is checked: all of it positive.
pub record Settings : Type 0 where
  pub window : ℕ
  pub min_samples : ℕ
  pub threshold_num : ℕ
  pub threshold_den : ℕ
  pub open_duration : ℕ

pub record Breaker : Type 0 where
  pub cfg : Settings
  pub state : State
  pub opened_at : ℕ
  pub probe_active : Bool
  pub probe_started_at : ℕ
  pub events : List Bool  -- true: success, false: failure
  pub gauge : ℕ  -- telemetry.CircuitState

pub data ConfigError : Type 0 where
  bad_window bad_min_samples min_samples_over_window bad_threshold bad_open_duration : ConfigError

pub data NewResult : Type 0 where
  created : Breaker → NewResult
  refused : ConfigError → NewResult

-- The checks of newCircuitBreaker, on the configuration with its defaults.
pub check : CircuitConfig → NewResult
check cfg =
    if leb_ℤ cfg.window (pos 0)
    then refused bad_window
    else if leb_ℤ cfg.min_samples (pos 0)
    then refused bad_min_samples
    else if ltb_ℤ cfg.window cfg.min_samples
    then refused min_samples_over_window
    else if leb_ℤ cfg.threshold_num (pos 0) || ltb_ℤ (pos cfg.threshold_den) cfg.threshold_num
    then refused bad_threshold
    else if leb_ℤ cfg.open_duration (pos 0)
    then refused bad_open_duration
    else created (record {
      cfg = record {
        window = pos_part cfg.window;
        min_samples = pos_part cfg.min_samples;
        threshold_num = pos_part cfg.threshold_num;
        threshold_den = cfg.threshold_den;
        open_duration = pos_part cfg.open_duration;
      };
      state = closed;
      opened_at = 0;
      probe_active = false;
      probe_started_at = 0;
      events = [];
      gauge = gauge_of closed;
    })

unfoldable pub new_circuit_breaker : CircuitConfig → NewResult
unfolding check with_defaults
new_circuit_breaker cfg = check (with_defaults cfg)

-- `now.Sub(since) >= OpenDuration`. The duration is positive, so a clock that went back counts as
-- no time passed, here as there.
abbrev pub elapsed : Breaker → ℕ → ℕ → Bool
elapsed c since now = leb c.cfg.open_duration (now - since)

ready_in : State → Breaker → ℕ → Bool
ready_in closed c now = true
ready_in open_ c now = elapsed c c.opened_at now
ready_in half_open c now = not c.probe_active || elapsed c c.probe_started_at now

unfoldable pub ready : Breaker → ℕ → Bool
unfolding ready_in
ready c now = ready_in c.state c now

-- The end of allow(), in the state HalfOpen: one probe at a time.
admit_probe : Breaker → ℕ → ℕ → Bool × Breaker
admit_probe c checked_at started_at =
    if c.probe_active && not (elapsed c c.probe_started_at checked_at)
    then (false, c)
    else (true, record c { probe_active = true; probe_started_at = started_at })

allow_in : State → Breaker → ℕ → ℕ → Bool × Breaker
unfolding admit_probe
allow_in closed c checked_at started_at = (true, c)
allow_in open_ c checked_at started_at =
    if not (elapsed c c.opened_at checked_at)
    then (false, c)
    else admit_probe
        (record c { state = half_open; probe_active = false; gauge = gauge_of half_open })
        checked_at started_at
allow_in half_open c checked_at started_at = admit_probe c checked_at started_at

-- On each path at most one `c.now()` is read for a test, and one for the probe's start.
unfoldable pub allow : Breaker → ℕ → ℕ → Bool × Breaker
unfolding allow_in
allow c checked_at started_at = allow_in c.state c checked_at started_at

cancel_in : State → Breaker → Breaker
cancel_in half_open c = record c { probe_active = false }
cancel_in _ c = c

unfoldable pub cancel_probe : Breaker → Breaker
unfolding cancel_in
cancel_probe c = cancel_in c.state c

pub open_locked : Breaker → ℕ → Breaker
open_locked c now = record c {
  state = open_;
  opened_at = now;
  probe_active = false;
  events = [];
  gauge = gauge_of open_;
}

pub close_locked : Breaker → Breaker
close_locked c = record c {
  state = closed;
  probe_active = false;
  events = [];
  gauge = gauge_of closed;
}

-- `c.events[len(c.events)-c.cfg.Window:]`, if there are more events than the window.
pub last_of_window : ℕ → List Bool → List Bool
last_of_window window events =
    if ltb window (length events) then drop (length events - window) events else events

pub count_failures : List Bool → ℕ
count_failures [] = 0
count_failures (event ∷ events) =
    let rest = count_failures events in if not event then suc rest else rest

-- failures/len(events) >= FailureThreshold
abbrev pub reaches : Settings → List Bool → Bool
reaches cfg events =
    leb (cfg.threshold_num * length events) (count_failures events * cfg.threshold_den)

pub judge : Breaker → ℕ → Breaker
judge c now =
    if ltb (length c.events) c.cfg.min_samples
    then c
    else if reaches c.cfg c.events
    then open_locked c now
    else c

record_in : State → Breaker → Bool → ℕ → Breaker
record_in half_open c success now =
    if success
    then close_locked (record c { probe_active = false })
    else open_locked (record c { probe_active = false }) now
record_in closed c success now =
    judge (record c { events = last_of_window c.cfg.window (c.events ++ success ∷ []) }) now
record_in open_ c success now = c

-- `now` is what openLocked reads, where it is called.
unfoldable pub record_outcome : Breaker → Bool → ℕ → Breaker
unfolding record_in judge open_locked close_locked
record_outcome c success now = record_in c.state c success now
