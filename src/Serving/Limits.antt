-- ===== src/Serving/Limits.antt =====
-- internal/pipeline/handler.go over internal/limiter/limiter.go: no call of the limiter changes its limit.
use dify_game_gateway.Base.{
  [], ◌∷◌, true, false, none, some, Text, List, ◌≡◌, refl, ◌∙◌, arith, Bool, Option, trim_space,
}
use dify_game_gateway.Base.Int.{ℤ, pos}
use dify_game_gateway.Circuit.{Breaker, record_outcome}
use dify_game_gateway.Pipeline.Errors.{Failure}
use dify_game_gateway.Pipeline.Effects.{
  Effect, limiter_allow, limiter_record, limiter_record_failure, limiter_release,
}
use dify_game_gateway.Limiter.Redis.{Redis}
use dify_game_gateway.Limiter.Guards.{
  RedisLimiter, Moment, allow, acquire_inflight, allow_rate, release_inflight, run, rate_checked,
  acquired, admitted, budgeted, allow_player, deny, cancelled, check_budget, record_usage,
  record_failure, release, record_tokens, recorded,
}
use dify_game_gateway.Limiter.Slots.{acquire_inflight-max}
use dify_game_gateway.Serving.{Moments, perform, perform_all}

module _ (redis : Redis) where
  release_inflight-max :
      (l : RedisLimiter redis) (m : Moment)
      → (release_inflight redis l m).1.max_inflight ≡ l.max_inflight
  unfolding release_inflight run
  release_inflight-max l m = ground arith

  allow_rate-max :
      (l : RedisLimiter redis) (m : Moment) (player : Text)
      → (allow_rate redis l m player).1.max_inflight ≡ l.max_inflight
  unfolding allow_rate run
  allow_rate-max l m player = ground arith

  record_tokens-max :
      (l : RedisLimiter redis) (m : Moment) (player : Text) (tokens : ℤ)
      → (record_tokens redis l m player tokens).1.max_inflight ≡ l.max_inflight
  unfolding record_tokens run
  record_tokens-max l m player tokens = ground arith

  rate_checked-max :
      (m : Moment) (o : Option Failure) (l : RedisLimiter redis)
      → (rate_checked redis m (o, l)).1.max_inflight ≡ l.max_inflight
  unfolding rate_checked deny cancelled
  rate_checked-max m none l = refl
  rate_checked-max m (some e) l = ground (arith, release_inflight-max l m)

  acquired-max :
      (m : Moment) (player : Text) (o : Option Failure) (l : RedisLimiter redis)
      → (acquired redis m player (o, l)).1.max_inflight ≡ l.max_inflight
  unfolding acquired deny cancelled
  acquired-max m player (some e) l = ground arith
  acquired-max m player none l =
      let (o, l') = allow_rate redis l m player in
      rate_checked-max m o l' ∙ allow_rate-max l m player

  admitted-max :
      (l : RedisLimiter redis) (m : Moment) (player : Text) (passed : Bool) (c : Breaker)
      → (admitted redis l m player (passed, c)).1.max_inflight ≡ l.max_inflight
  unfolding admitted deny
  admitted-max l m player false c = ground arith
  admitted-max l m player true c =
      let l' : RedisLimiter redis = record l { circuit = c } in
      let (o, l'') = acquire_inflight redis l' m in
      acquired-max m player o l'' ∙ acquire_inflight-max redis l' m

  budgeted-max :
      (l : RedisLimiter redis) (m : Moment) (player : Text) (o : Option Failure)
      → (budgeted redis l m player o).1.max_inflight ≡ l.max_inflight
  unfolding budgeted deny
  budgeted-max l m player (some e) = ground arith
  budgeted-max l m player none = admitted-max l m player _ _

  allow-max :
      (l : RedisLimiter redis) (m : Moment) (player : Text) (estimate : ℤ)
      → (allow redis l m player estimate).1.max_inflight ≡ l.max_inflight
  unfolding allow allow_player deny
  allow-max l m player estimate =
      let trimmed = trim_space player in
      ground (arith, budgeted-max l m trimmed (check_budget redis l m trimmed estimate))

  record_usage-max :
      (l : RedisLimiter redis) (m : Moment) (player : Text) (tokens : ℤ)
      → (record_usage redis l m player tokens).1.max_inflight ≡ l.max_inflight
  unfolding record_usage recorded
  record_usage-max l m player tokens =
      let l' = (release_inflight redis l m).1 in
      let l'' : RedisLimiter redis = record l' {
        circuit = record_outcome l'.circuit true m.outcome_at;
      } in
      ground (arith, release_inflight-max l m, record_tokens-max l'' m (trim_space player) tokens)

  perform-max :
      (m : Moments) (l : RedisLimiter redis) (e : Effect)
      → (perform redis m l e).max_inflight ≡ l.max_inflight
  unfolding perform record_failure release cancelled
  perform-max m l (limiter_allow player) = allow-max l m.entering player (pos 0)
  perform-max m l (limiter_record player tokens) = record_usage-max l m.leaving player tokens
  perform-max m l limiter_record_failure = release_inflight-max l m.leaving
  perform-max m l limiter_release = release_inflight-max _ m.leaving
  perform-max m l _ = refl

  pub perform_all-max :
      (m : Moments) (l : RedisLimiter redis) (es : List Effect)
      → (perform_all redis m l es).max_inflight ≡ l.max_inflight
  unfolding perform_all
  perform_all-max m l [] = refl
  perform_all-max m l (e ∷ es) = perform_all-max m (perform redis m l e) es ∙ perform-max m l e
