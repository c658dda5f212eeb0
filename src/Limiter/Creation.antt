-- ===== src/Limiter/Creation.antt =====
-- internal/limiter/limiter.go, New and parseRate: how a limiter is made. `parse_duration` is
-- time.ParseDuration, in nanoseconds; the client is not nil.
use dify_game_gateway.Base.{
  ℕ, ◌/◌, none, some, Text, text, Option, if◌then◌else◌, is_empty, trim_space, cut,
}
use dify_game_gateway.Base.Int.{ℤ, pos, pos_part, atoi, leb_ℤ}
use dify_game_gateway.Circuit
use dify_game_gateway.Circuit.{CircuitConfig, new_circuit_breaker, Breaker, is_zero_ℤ, NewResult}
use dify_game_gateway.Limiter.Redis.{Redis}
use dify_game_gateway.Limiter.Guards.{RedisLimiter}

-- The number of requests, and their window in nanoseconds.
pub record RateLimit : Type 0 where
  pub limit : ℕ
  pub window : ℕ

pub data LimiterError : Type 0 where
  bad_shape bad_count bad_window : LimiterError
  bad_budget bad_max_inflight bad_lease : LimiterError
  bad_circuit : Circuit.ConfigError → LimiterError

pub data Rate : Type 0 where
  rate : RateLimit → Rate
  no_rate : LimiterError → Rate

-- Two minutes, in nanoseconds.
abbrev pub default_inflight_lease : ℤ
default_inflight_lease = pos 120_000_000_000

abbrev pub with_window : ℤ → Option ℤ → Rate
with_window count none = no_rate bad_window
with_window count (some window) =
    if leb_ℤ window (pos 0)
    then no_rate bad_window
    else rate (record { limit = pos_part count; window = pos_part window })

module _ (parse_duration : Text → Option ℤ) where
  abbrev pub with_count : Text → Option ℤ → Rate
  with_count window_raw none = no_rate bad_count
  with_count window_raw (some count) =
      if leb_ℤ count (pos 0)
      then no_rate bad_count
      else with_window count (parse_duration (trim_space window_raw))

  abbrev pub parts_of : Option (Text × Text) → Rate
  parts_of none = no_rate bad_shape
  parts_of (some (count_raw, window_raw)) = with_count window_raw (atoi (trim_space count_raw))

  unfoldable pub parse_rate : Text → Rate
  parse_rate raw =
      let trimmed = trim_space raw in
      parts_of (cut (text "r/") (if is_empty trimmed then text "1r/2s" else trimmed))

-- The durations are nanoseconds; a lease of 0 is the default.
pub record LimiterConfig : Type 0 where
  pub rate_per_player : Text
  pub token_budget_daily : ℤ
  pub max_inflight_upstream : ℤ
  pub inflight_lease : ℤ
  pub circuit : CircuitConfig

module _ (redis : Redis) where
  pub data Created : Type 0 where
    created : RedisLimiter redis → Created
    refused : LimiterError → Created

  abbrev pub in_ms : ℕ → ℕ
  in_ms ns = ns / 1_000_000

  -- The limiter of checked settings. A Redis of its own, and no serial is used.
  abbrev pub limiter_of : redis.Db → Text → LimiterConfig → RateLimit → ℤ → NewResult → Created
  limiter_of db instance_id cfg r lease (Circuit.refused e) = refused (bad_circuit e)
  limiter_of db instance_id cfg r lease (Circuit.created circuit) = created (record {
    db = db;
    rate_limit = r.limit;
    window_ms = in_ms r.window;
    token_budget = cfg.token_budget_daily;
    max_inflight = pos_part cfg.max_inflight_upstream;
    inflight_ttl_ms = in_ms (pos_part lease);
    circuit = circuit;
    instance_id = instance_id;
    member_serial = 0;
    inflight_gauge = 0;
    rate_limited_total = 0;
  })

  abbrev pub checked : redis.Db → Text → LimiterConfig → Rate → Created
  checked db instance_id cfg (no_rate e) = refused e
  checked db instance_id cfg (rate r) =
      let lease =
        if is_zero_ℤ cfg.inflight_lease then default_inflight_lease else cfg.inflight_lease in
      if leb_ℤ cfg.token_budget_daily (pos 0)
      then refused bad_budget
      else if leb_ℤ cfg.max_inflight_upstream (pos 0)
      then refused bad_max_inflight
      else if leb_ℤ lease (pos 0)
      then refused bad_lease
      else limiter_of db instance_id cfg r lease (new_circuit_breaker cfg.circuit)

  -- `instance_id` is what newInstanceID draws, and `db` is what Redis holds.
  unfoldable pub new_limiter : (Text → Option ℤ) → redis.Db → Text → LimiterConfig → Created
  unfolding parse_rate
  new_limiter parse_duration db instance_id cfg =
      checked db instance_id cfg (parse_rate parse_duration cfg.rate_per_player)
