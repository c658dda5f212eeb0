-- ===== src/Limiter/Tests.antt =====
-- internal/limiter/limiter.go: the limiter's scripts and guards on a Redis in memory.
use dify_game_gateway.Base.{
  AllDiffer, trim_space, text, List, [], ◌∷◌, some, none, true, false, refl, ◌≡◌, ◌≢◌, text_eq, ◌≤◌,
  length, arith,
}
use dify_game_gateway.Base.Int.{pos, ◌+ℤ◌}
use dify_game_gateway.Circuit.{Breaker, closed, CircuitConfig, new_circuit_breaker, ready}
use dify_game_gateway.Circuit
use dify_game_gateway.Circuit.Invariant.{IsValid, new_circuit_breaker-IsValid}
use dify_game_gateway.Limiter.Memory.{Memory, memory, empty_memory, with_set}
use dify_game_gateway.Limiter.Guards.{
  RedisLimiter, Moment, delivered, lost_after, inflight_key, allow, check_budget, acquire_inflight,
  allow_rate, run,
}
use dify_game_gateway.Limiter.Scripts.{acquire_inflight_script, rate_limit_script}
use dify_game_gateway.Limiter.Creation.{rate, parse_rate}
use mathlib.Core.Option
use dify_game_gateway.Base.{cut, drop_prefix, digits}
use dify_game_gateway.Base.Int.{atoi}
use dify_game_gateway.Limiter.Tokens.{members, members-AllDiffer}
use dify_game_gateway.Base.{Text, Option, if◌then◌else◌}
use dify_game_gateway.Base.Int.{ℤ}
use dify_game_gateway.Limiter.Semaphore.{SlotCall, take_slot, give_slot}
use dify_game_gateway.Limiter.Refinement.{slot_replies, slot_replies-semaphore}
use dify_game_gateway.Limiter.Slots.{held, allow-held}
use dify_game_gateway.Limiter.Window.{Hit, IsFresh, answers, answers-eq-decisions}

abbrev one_lease : Memory
one_lease = with_set empty_memory inflight_key ((text "a", 50) ∷ []) (tt, tt)

-- A breaker that is ready for a probe, and none is out.
abbrev waiting : Breaker
waiting = record {
  cfg = record {
    window = 4;
    min_samples = 2;
    threshold_num = 1;
    threshold_den = 2;
    open_duration = 10;
  };
  state = closed;
  opened_at = 0;
  probe_active = false;
  probe_started_at = 0;
  events = [];
  gauge = 0;
}

-- A rate limit of none: every request is refused once it has its slot.
abbrev strict : RedisLimiter memory
strict = record {
  db = one_lease;
  rate_limit = 0;
  window_ms = 60_000;
  token_budget = pos 1_000;
  max_inflight = 2;
  inflight_ttl_ms = 100;
  circuit = waiting;
  instance_id = text "g";
  member_serial = 0;
  inflight_gauge = 1;
  rate_limited_total = 0;
}

abbrev moment : Moment
moment = record {
  ready_at = 5;
  checked_at = 5;
  started_at = 5;
  day = text "20260101";
  acquire_ms = 20;
  rate_ms = 20;
  release_ms = 20;
  outcome_at = 6;
  budget_ttl_ms = 1_000;
  get_reply = delivered;
  acquire_reply = delivered;
  rate_reply = delivered;
  release_reply = delivered;
  record_reply = delivered;
}

-- Two slots, one of which is taken: a take, one too many, a give and a take.
abbrev row : List SlotCall
row =
    take_slot 20 120 (text "b")
    ∷ take_slot 21 121 (text "c")
    ∷ give_slot 22
    ∷ take_slot 23 123 (text "d")
    ∷ []

slot_replies-semaphore_example :
    let (replies, last) = slot_replies memory inflight_key 2 100 one_lease row in
    (replies ≡ some 2 ∷ none ∷ some 1 ∷ some 2 ∷ []) × (length (memory.zset inflight_key last) ≡ 2)
unfolding with_set text_eq
slot_replies-semaphore_example =
    slot_replies-semaphore memory inflight_key 2 100 50 row one_lease (omega arith, tt)
      ((refl, tt), ((refl, tt), ((refl, tt), tt))) ((refl, (refl, tt)), ((refl, tt), (tt, tt)))
      (
        (omega arith, omega arith),
        ((omega arith, omega arith), (omega arith, ((omega arith, omega arith), tt))),
      )

allow-held_example :
    let ((passed, e), l') = allow memory strict moment (text "p") (pos 0) in
    (held memory strict ≤ 2 → held memory l' ≤ 2)
    × (passed ≡ false
        → moment.acquire_reply ≢ lost_after
        → moment.release_reply ≡ delivered
        → held memory l' ≤ held memory strict)
allow-held_example = allow-held memory strict moment (text "p") (pos 0)

abbrev waiting_config : CircuitConfig
waiting_config = record {
  window = pos 4;
  min_samples = pos 2;
  threshold_num = pos 1;
  threshold_den = 2;
  open_duration = pos 10;
}

waiting-IsValid : IsValid waiting
unfolding new_circuit_breaker
waiting-IsValid = (new_circuit_breaker-IsValid waiting_config waiting refl).0

strict_refuses : (allow memory strict moment (text "p") (pos 0)).0.0 ≡ false
unfolding allow with_set text_eq Circuit.allow ready trim_space check_budget acquire_inflight
    allow_rate acquire_inflight_script rate_limit_script run ◌+ℤ◌
strict_refuses = refl

-- Two requests a minute: the third within it is refused, and a later one passes.
abbrev hits : List Hit
hits = (10, text "a") ∷ (20, text "b") ∷ (30, text "c") ∷ (75, text "d") ∷ []

hits-IsFresh : IsFresh memory (text "k") 2 60 empty_memory hits
unfolding with_set text_eq rate_limit_script
hits-IsFresh = (tt, ((refl, tt), ((refl, (refl, tt)), ((refl, tt), tt))))

answers-eq-decisions_example :
    answers memory (text "k") 2 60 empty_memory hits ≡ true ∷ true ∷ false ∷ true ∷ []
answers-eq-decisions_example =
    answers-eq-decisions memory (text "k") 2 60 0 [] empty_memory hits (λ now h. refl)
      (omega arith, (omega arith, (omega arith, (omega arith, tt)))) hits-IsFresh

abbrev durations : Text → Option ℤ
durations s = if text_eq s (text "1m30s") then some (pos 90_000_000_000) else none

rate_of_text :
    parse_rate durations (text " 12r/1m30s") ≡ rate (record { limit = 12; window = 90_000_000_000 })
unfolding parse_rate trim_space cut drop_prefix atoi text_eq Option.bind digits
rate_of_text = refl

members-AllDiffer_example : AllDiffer (members memory strict (20 ∷ 20 ∷ 20 ∷ []))
members-AllDiffer_example = members-AllDiffer memory strict (20 ∷ 20 ∷ 20 ∷ []) (omega arith)
