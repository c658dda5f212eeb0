-- ===== src/Serving/Runs.antt =====
-- internal/pipeline/handler.go over internal/limiter/limiter.go: rows of chats on one limiter.
use dify_game_gateway.Base.{ℕ, [], ◌∷◌, Text, List, ◌≡◌, ◌≤◌, refl, ◌∙◌, arith}
use dify_game_gateway.Wire.{ChatRequest}
use dify_game_gateway.Circuit.Invariant.{IsValid}
use dify_game_gateway.Pipeline.Effects.{Handler, Answers}
use dify_game_gateway.Limiter.Redis.{Redis}
use dify_game_gateway.Limiter.Guards.{RedisLimiter}
use dify_game_gateway.Limiter.Slots.{held}
use dify_game_gateway.Limiter.Setup.{IsReady}
use dify_game_gateway.Serving.{Moments, serve}
use dify_game_gateway.Serving.Chats.{serve-held_limit, serve-NoProbe}
use dify_game_gateway.Serving.Limits.{perform_all-max}

module _ (redis : Redis) where
  -- One chat of a row, with what the world answers to it.
  pub record Turn : Type 0 where
    pub answers : Answers
    pub moments : Moments
    pub player : Text
    pub request : ChatRequest

  unfoldable pub serve_all : Handler → RedisLimiter redis → List Turn → RedisLimiter redis
  serve_all h l [] = l
  serve_all h l (t ∷ ts) = serve_all h (serve redis h t.answers l t.moments t.player t.request).1 ts

  pub record Holds (limit : ℕ) (l : RedisLimiter redis) : Type 0 where
    pub limit_kept : l.max_inflight ≡ limit
    pub within : held redis l ≤ limit
    pub circuit_valid : IsValid l.circuit

  serve-Holds :
      (limit : ℕ) (h : Handler) (l : RedisLimiter redis) (t : Turn)
      → Holds limit l
      → Holds limit (serve redis h t.answers l t.moments t.player t.request).1
  unfolding serve
  serve-Holds limit h l t holds =
      let same =
        perform_all-max redis t.moments l
          (serve redis h t.answers l t.moments t.player t.request).0 in
      let fits : held redis l ≤ l.max_inflight = omega (arith, holds.within, holds.limit_kept) in
      let kept = serve-held_limit redis h t.answers l t.moments t.player t.request fits in
      record {
        limit_kept = same ∙ holds.limit_kept;
        within = omega (arith, kept, holds.limit_kept);
        circuit_valid =
            (serve-NoProbe redis h t.answers l t.moments t.player t.request holds.circuit_valid).0;
      }

  rows :
      (h : Handler) (limit : ℕ) (l : RedisLimiter redis) (ts : List Turn)
      → Holds limit l
      → Holds limit (serve_all h l ts)
  unfolding serve_all
  rows h limit l [] holds = holds
  rows h limit l (t ∷ ts) holds =
      rows h limit (serve redis h t.answers l t.moments t.player t.request).1 ts
        (serve-Holds limit h l t holds)

  -- From a limiter that New has made, on a Redis that holds no more leases than its limit, any row of
  -- chats, whatever the world answers to them, keeps the leases within the limit, the limit as it was, and the
  -- breaker's state valid.
  pub serve_all-Holds :
      (h : Handler) (l : RedisLimiter redis) (ts : List Turn)
      → IsReady redis l
      → held redis l ≤ l.max_inflight
      → Holds l.max_inflight (serve_all h l ts)
  serve_all-Holds h l ts ready fits =
      rows h l.max_inflight l ts
        (record { limit_kept = refl; within = fits; circuit_valid = ready.circuit_valid })
