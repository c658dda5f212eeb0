-- ===== src/Limiter/Setup.antt =====
-- internal/limiter/limiter.go, New and parseRate: what a limiter is like at its start.
use dify_game_gateway.Base.{
  ℕ, [], ◌∷◌, ◌++◌, ◌<◌, ◌^◌, none, some, false, Text, text, Option, if◌then◌else◌, is_empty,
  trim_space, ◌≡◌, refl, arith, Lacks, cut-append, IsTrimmed, trim_space_of_IsTrimmed, decimal,
  decimal-IsTrimmed, decimal-IsDigit, atoi-decimal, All, trim_left-append, trim_right-append,
  IsDigit, is_empty-append,
}
use dify_game_gateway.Base.Int.{ℤ, pos, pos_part, atoi, ◌≤ℤ◌}
use dify_game_gateway.Circuit
use dify_game_gateway.Circuit.{closed, new_circuit_breaker, is_zero_ℤ}
use dify_game_gateway.Circuit.Invariant.{IsValid, new_circuit_breaker-IsValid}
use dify_game_gateway.Limiter.Redis.{Redis}
use dify_game_gateway.Limiter.Guards.{RedisLimiter}
use dify_game_gateway.Limiter.Creation.{
  RateLimit, Rate, rate, no_rate, parse_rate, parts_of, with_count, with_window, LimiterConfig,
  new_limiter, created, limiter_of, checked, default_inflight_lease,
}

digits-Lacks : (s : Text) → All IsDigit s → Lacks b'r' s
digits-Lacks [] h = tt
digits-Lacks (c ∷ s) (h, hs) = (ground arith, digits-Lacks s hs)

module _ (parse_duration : Text → Option ℤ) where
  -- A rate that is written as a number, `r/` and a duration is read as it is written.
  pub parse_rate-decimal :
      (n window : ℕ) (duration : Text)
      → n < 2 ^ 63
      → 0 < n
      → IsTrimmed duration
      → is_empty duration ≡ false
      → parse_duration duration ≡ some (pos window)
      → 0 < window
      → parse_rate parse_duration (decimal n ++ (text "r/" ++ duration))
        ≡ rate (record { limit = n; window = window })
  unfolding parse_rate
  parse_rate-decimal n window duration fits some_ trimmed filled parsed lasts =
      let (number, written) = decimal-IsTrimmed n in
      let right = trim_right-append (text "r/") duration filled trimmed.1 in
      let whole : trim_space (decimal n ++ (text "r/" ++ duration))
          ≡ decimal n ++ (text "r/" ++ duration) =
        trim_space_of_IsTrimmed _ (
          trim_left-append (decimal n) (text "r/" ++ duration) written number.0,
          trim_right-append (decimal n) (text "r/" ++ duration) refl right,
        ) in
      let parts =
        cut-append b'r' (text "/") (decimal n) duration (digits-Lacks _ (decimal-IsDigit n)) in
      let same = trim_space_of_IsTrimmed duration trimmed in
      rw
        (
          whole,
          is_empty-append (decimal n) (text "r/" ++ duration) refl,
          parts,
          trim_space_of_IsTrimmed (decimal n) number,
          atoi-decimal n fits,
          same,
          parsed,
        )
        (ground arith)

  with_window-limit :
      (count : ℤ) (o : Option ℤ) (r : RateLimit)
      → with_window count o ≡ rate r
      → r.limit ≡ pos_part count
  with_window-limit count none r h = cc
  with_window-limit count (some window) r h = ground arith

  with_count-pos :
      (window_raw : Text) (o : Option ℤ) (r : RateLimit)
      → with_count parse_duration window_raw o ≡ rate r
      → 0 < r.limit
  with_count-pos window_raw none r h = cc
  with_count-pos window_raw (some count) r h =
      let limit = with_window-limit count (parse_duration (trim_space window_raw)) r in
      ground (arith, limit)

  parts_of-pos :
      (o : Option (Text × Text)) (r : RateLimit) → parts_of parse_duration o ≡ rate r → 0 < r.limit
  parts_of-pos none r h = cc
  parts_of-pos (some (count_raw, window_raw)) r h =
      with_count-pos window_raw (atoi (trim_space count_raw)) r h

  parse_rate-pos :
      (raw : Text) (r : RateLimit) → parse_rate parse_duration raw ≡ rate r → 0 < r.limit
  unfolding parse_rate
  parse_rate-pos raw r h = parts_of-pos _ r h

module _ (redis : Redis) where
  -- What New promises of a limiter.
  pub record IsReady (l : RedisLimiter redis) : Type 0 where
    pub rate_pos : 0 < l.rate_limit
    pub budget_pos : pos 1 ≤ℤ l.token_budget
    pub inflight_pos : 0 < l.max_inflight
    pub circuit_valid : IsValid l.circuit
    pub circuit_closed : l.circuit.state ≡ closed

  limiter_of-IsReady :
      (db : redis.Db) (instance_id : Text) (cfg : LimiterConfig) (r : RateLimit) (lease : ℤ)
      (l : RedisLimiter redis) (n : Circuit.NewResult)
      → new_circuit_breaker cfg.circuit ≡ n
      → 0 < r.limit
      → pos 1 ≤ℤ cfg.token_budget_daily
      → pos 1 ≤ℤ cfg.max_inflight_upstream
      → limiter_of redis db instance_id cfg r lease n ≡ created l
      → IsReady l
  limiter_of-IsReady db instance_id cfg r lease l (Circuit.refused e) made p q b h = cc
  limiter_of-IsReady db instance_id cfg r lease l (Circuit.created c) made p q b h =
      let (valid, shut) = new_circuit_breaker-IsValid cfg.circuit c made in ground arith

  checked-IsReady :
      (db : redis.Db) (instance_id : Text) (cfg : LimiterConfig) (l : RedisLimiter redis) (o : Rate)
      → ((r : RateLimit) → o ≡ rate r → 0 < r.limit)
      → checked redis db instance_id cfg o ≡ created l
      → IsReady l
  checked-IsReady db instance_id cfg l (no_rate e) p h = cc
  checked-IsReady db instance_id cfg l (rate r) p h =
      let lease =
        if is_zero_ℤ cfg.inflight_lease then default_inflight_lease else cfg.inflight_lease in
      let last =
        limiter_of-IsReady db instance_id cfg r lease l (new_circuit_breaker cfg.circuit) refl
          (p r refl) in
      ground (arith, last)

  -- A limiter that New makes has positive limits, and a breaker that is valid and closed.
  pub new_limiter-IsReady :
      (parse_duration : Text → Option ℤ) (db : redis.Db) (instance_id : Text) (cfg : LimiterConfig)
      (l : RedisLimiter redis)
      → new_limiter redis parse_duration db instance_id cfg ≡ created l
      → IsReady l
  unfolding new_limiter
  new_limiter-IsReady parse_duration db instance_id cfg l h =
      checked-IsReady db instance_id cfg l (parse_rate parse_duration cfg.rate_per_player)
        (parse_rate-pos parse_duration cfg.rate_per_player) h
