-- ===== src/Circuit/Tests.antt =====
-- internal/limiter/circuit.go: the breaker on small inputs.
use dify_game_gateway.Base.{[], ◌∷◌, true, false, refl, arith, ◌≡◌, List}
use dify_game_gateway.Base.Int.{pos}
use dify_game_gateway.Circuit
use dify_game_gateway.Circuit.{
  CircuitConfig, Settings, Breaker, closed, half_open, open_, gauge_of, created,
  new_circuit_breaker, ready, count_failures,
}
use dify_game_gateway.Circuit.Invariant.{IsSound, IsValid}
use dify_game_gateway.Circuit.Probe.{Call, allow_call, cancel_call, record_call, allow_single_probe}
use dify_game_gateway.Circuit.Window.{record_all, record_all-state}

-- Two outcomes of at most four, half of them failures; ten nanoseconds.
abbrev small : Settings
small = record {
  window = 4;
  min_samples = 2;
  threshold_num = 1;
  threshold_den = 2;
  open_duration = 10;
}

abbrev small_config : CircuitConfig
small_config = record {
  window = pos 4;
  min_samples = pos 2;
  threshold_num = pos 1;
  threshold_den = 2;
  open_duration = pos 10;
}

abbrev fresh : Breaker
fresh = record {
  cfg = small;
  state = closed;
  opened_at = 0;
  probe_active = false;
  probe_started_at = 0;
  events = [];
  gauge = 0;
}

abbrev tripped : Breaker
tripped = record fresh { state = open_; opened_at = 100; gauge = 2 }

new_circuit_breaker-fresh : new_circuit_breaker small_config ≡ created fresh
unfolding new_circuit_breaker
new_circuit_breaker-fresh = refl

small-IsSound : IsSound small
small-IsSound = ground arith

fresh-IsValid : IsValid fresh
unfolding count_failures
fresh-IsValid = ground (arith, small-IsSound)

tripped-IsValid : IsValid tripped
tripped-IsValid = ground (arith, small-IsSound)

-- A failure and a success reach the threshold; what comes later is ignored.
record_all-state_example : (record_all fresh (false ∷ true ∷ true ∷ []) (λ n. n)).state ≡ open_
unfolding count_failures
record_all-state_example = record_all-state fresh [] (false ∷ true ∷ true ∷ []) (λ n. n) refl refl

allow_single_probe_example : (Circuit.allow (Circuit.allow tripped 110 111).1 115 116).0 ≡ false
unfolding Circuit.allow
allow_single_probe_example =
    allow_single_probe tripped 110 111 115 116 tripped-IsValid (λ e. cc) refl (omega arith)

abbrev late_calls : List Call
late_calls = allow_call 103 104 ∷ record_call true 105 ∷ cancel_call ∷ allow_call 109 109 ∷ []
