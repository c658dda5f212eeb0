-- ===== src/Serving/Tests.antt =====
-- internal/pipeline/handler.go over internal/limiter/limiter.go: a chat on a Redis in memory.
use dify_game_gateway.Base.{
  text_eq, text, [], ◌∷◌, none, true, false, refl, ◌≡◌, ◌≤◌, ◌⊎◌, arith, List,
}
use dify_game_gateway.Base.Int.{pos}
use dify_game_gateway.Wire.{ChatRequest}
use dify_game_gateway.Moderation.{allow_all}
use dify_game_gateway.Pipeline.Errors.{ok}
use dify_game_gateway.Pipeline.Effects.{Handler, Answers, on_delta, live}
use dify_game_gateway.Circuit.{Breaker, half_open}
use dify_game_gateway.Circuit.Invariant.{IsValid, new_circuit_breaker-IsValid}
use dify_game_gateway.Limiter.Memory.{Memory, memory, empty_memory, with_set}
use dify_game_gateway.Limiter.Guards.{RedisLimiter, Moment, delivered, inflight_key}
use dify_game_gateway.Limiter.Slots.{held}
use dify_game_gateway.Serving.{Moments, serve}
use dify_game_gateway.Circuit.{closed}
use dify_game_gateway.Circuit.{CircuitConfig, new_circuit_breaker}
use dify_game_gateway.Limiter.Setup.{IsReady}
use dify_game_gateway.Serving.Runs.{Turn, Holds, serve_all, serve_all-Holds}
use dify_game_gateway.Serving.Chats.{serve-held_limit, serve-held, serve-NoProbe}

abbrev one_lease : Memory
one_lease = with_set empty_memory inflight_key ((text "a", 50) ∷ []) (tt, tt)

-- A breaker that waits for the outcome of a probe that is long gone.
abbrev probing : Breaker
probing = record {
  cfg = record {
    window = 4;
    min_samples = 2;
    threshold_num = 1;
    threshold_den = 2;
    open_duration = 10;
  };
  state = half_open;
  opened_at = 0;
  probe_active = true;
  probe_started_at = 1;
  events = [];
  gauge = 1;
}

abbrev limiter : RedisLimiter memory
limiter = record {
  db = one_lease;
  rate_limit = 1;
  window_ms = 60_000;
  token_budget = pos 1_000;
  max_inflight = 2;
  inflight_ttl_ms = 100;
  circuit = probing;
  instance_id = text "g";
  member_serial = 0;
  inflight_gauge = 1;
  rate_limited_total = 0;
}

abbrev moment : Moment
moment = record {
  ready_at = 25;
  checked_at = 25;
  started_at = 25;
  day = text "20260101";
  acquire_ms = 20;
  rate_ms = 20;
  release_ms = 20;
  outcome_at = 26;
  budget_ttl_ms = 1_000;
  get_reply = delivered;
  acquire_reply = delivered;
  rate_reply = delivered;
  release_reply = delivered;
  record_reply = delivered;
}

abbrev moments : Moments
moments = record { entering = moment; leaving = moment }

abbrev complete : Handler
complete = record {
  has_auth = true;
  has_limiter = true;
  has_store = true;
  has_assembler = true;
  has_dify = true;
  moderator = allow_all;
  lock_ttl = 30_000_000_000;
}

abbrev smooth : Answers
smooth = record {
  allow = (false, none);
  first_get = ok (text "conv");
  until_deadline = none;
  acquire = none;
  second_get = ok [];
  build = ok [];
  events = on_delta (text "Hello.") ∷ [];
  result = record { conversation_id = text "conv"; total_tokens = pos 7 };
  stream_error = none;
  context = live;
  record_error = none;
  set_error = none;
}

abbrev hello : ChatRequest
hello = record {
  request_id = text "r1";
  npc_id = text "smith";
  query = text "Hi";
  conversation_id = [];
  context = [];
}

serve-held_limit_example :
    held memory (serve memory complete smooth limiter moments (text "hero") hello).1 ≤ 2
unfolding with_set text_eq
serve-held_limit_example =
    serve-held_limit memory complete smooth limiter moments (text "hero") hello (omega arith)

serve-held_example :
    held memory (serve memory complete smooth limiter moments (text "hero") hello).1
    ≤ held memory limiter
serve-held_example =
    serve-held memory complete smooth limiter moments (text "hero") hello (λ e. cc) refl refl

probing-IsValid : IsValid probing
probing-IsValid = ground arith

serve-NoProbe_example :
    let c = (serve memory complete smooth limiter moments (text "hero") hello).1.circuit in
    IsValid c × ((c ≡ probing) ⊎ (c.probe_active ≡ false))
serve-NoProbe_example =
    serve-NoProbe memory complete smooth limiter moments (text "hero") hello probing-IsValid

abbrev idle : RedisLimiter memory
idle = record limiter {
  circuit = record probing {
    state = closed;
    probe_active = false;
    probe_started_at = 0;
    gauge = 0;
  };
}

abbrev small_config : CircuitConfig
small_config = record {
  window = pos 4;
  min_samples = pos 2;
  threshold_num = pos 1;
  threshold_den = 2;
  open_duration = pos 10;
}

idle-IsValid : IsValid idle.circuit
unfolding new_circuit_breaker
idle-IsValid = (new_circuit_breaker-IsValid small_config idle.circuit refl).0

idle-IsReady : IsReady memory idle
idle-IsReady = record {
  rate_pos = omega arith;
  budget_pos = omega arith;
  inflight_pos = omega arith;
  circuit_valid = idle-IsValid;
  circuit_closed = refl;
}

abbrev turns : List (Turn memory)
turns =
    record { answers = smooth; moments = moments; player = text "hero"; request = hello }
    ∷ record { answers = smooth; moments = moments; player = text "hero"; request = hello }
    ∷ []

serve_all-Holds_example : Holds memory 2 (serve_all memory complete idle turns)
unfolding with_set text_eq
serve_all-Holds_example = serve_all-Holds memory complete idle turns idle-IsReady (omega arith)
