-- ===== src/Circuit/Invariant.antt =====
-- internal/limiter/circuit.go: the state of a breaker between two calls.
use dify_game_gateway.Base.{
  ℕ, ◌<◌, arith, ◌≡◌, Bool, ◌≤◌, List, true, length, length-drop, ◌≢◌, [], ◌++◌, ◌*◌, ◌-◌, ◌∷◌,
}
use dify_game_gateway.Circuit.{
  closed, half_open, created, new_circuit_breaker, record_outcome, allow, Settings, last_of_window,
  Breaker, cancel_probe, count_failures, gauge_of, CircuitConfig,
}

-- The settings that newCircuitBreaker accepts.
pub record IsSound (cfg : Settings) : Type 0 where
  pub samples_pos : 0 < cfg.min_samples
  pub samples_fit : cfg.min_samples ≤ cfg.window
  pub threshold_pos : 0 < cfg.threshold_num
  pub threshold_le_one : cfg.threshold_num ≤ cfg.threshold_den
  pub duration_pos : 0 < cfg.open_duration

pub record IsValid (c : Breaker) : Type 0 where
  pub sound : IsSound c.cfg
  pub gauge_shows : c.gauge ≡ gauge_of c.state
  pub probe_in_half_open : c.probe_active ≡ true → c.state ≡ half_open
  pub events_in_closed : c.state ≢ closed → c.events ≡ []
  pub events_fit : length c.events ≤ c.cfg.window
  pub healthy :
      c.state ≡ closed
      → c.cfg.min_samples ≤ length c.events
      → count_failures c.events * c.cfg.threshold_den < c.cfg.threshold_num * length c.events

-- A configuration that is accepted gives a breaker in a valid state, and it is closed.
pub new_circuit_breaker-IsValid :
    (cfg : CircuitConfig) (c : Breaker)
    → new_circuit_breaker cfg ≡ created c
    → IsValid c × (c.state ≡ closed)
unfolding new_circuit_breaker count_failures
new_circuit_breaker-IsValid cfg c h = ground arith

pub allow-IsValid :
    (c : Breaker) (checked_at started_at : ℕ)
    → IsValid c
    → IsValid (allow c checked_at started_at).1
unfolding allow
allow-IsValid c checked_at started_at v = ground arith

pub cancel_probe-IsValid : (c : Breaker) → IsValid c → IsValid (cancel_probe c)
unfolding cancel_probe
cancel_probe-IsValid c v = ground arith

pub length-last_of_window :
    (window : ℕ) (events : List Bool) → length (last_of_window window events) ≤ window
unfolding last_of_window
length-last_of_window window events = ground (arith, length-drop (length events - window) events)

pub record_outcome-IsValid :
    (c : Breaker) (success : Bool) (now : ℕ) → IsValid c → IsValid (record_outcome c success now)
unfolding record_outcome count_failures
record_outcome-IsValid c success now v =
    ground (arith, length-last_of_window c.cfg.window (c.events ++ success ∷ []))
