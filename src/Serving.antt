-- ===== src/Serving.antt =====
-- A chat on the limiter: internal/pipeline/handler.go over internal/limiter/limiter.go, joined as
-- Build in internal/gateway/runtime.go joins them. The chats run one after the other; the children prove.
pub mod Owners
pub mod Accounts
pub mod Limits
pub mod Chats
pub mod Runs
mod Tests
use dify_game_gateway.Base.{List, [], ◌∷◌, Text, Option}
use dify_game_gateway.Base.Int.{pos}
use dify_game_gateway.Wire.{ChatRequest}
use dify_game_gateway.Pipeline.Effects.{
  Effect, limiter_allow, limiter_record, limiter_record_failure, limiter_release, Handler, Answers,
}
use dify_game_gateway.Pipeline.Chat.{handle_chat}
use dify_game_gateway.Limiter.Redis.{Redis}
use dify_game_gateway.Limiter.Guards.{
  RedisLimiter, Moment, allow, record_usage, record_failure, release,
}

-- What a method of the limiter meets: while Allow runs, and while the slot is given back.
pub record Moments : Type 0 where
  pub entering : Moment
  pub leaving : Moment

module _ (redis : Redis) where
  -- The limiter's method that an effect of the handler calls; the other effects leave the limiter alone.
  unfoldable pub perform : Moments → RedisLimiter redis → Effect → RedisLimiter redis
  perform m l (limiter_allow player) = (allow redis l m.entering player (pos 0)).1
  perform m l (limiter_record player tokens) = (record_usage redis l m.leaving player tokens).1
  perform m l limiter_record_failure = (record_failure redis l m.leaving).1
  perform m l limiter_release = (release redis l m.leaving).1
  perform m l _ = l

  unfoldable pub perform_all : Moments → RedisLimiter redis → List Effect → RedisLimiter redis
  perform_all m l [] = l
  perform_all m l (e ∷ es) = perform_all m (perform m l e) es

  -- The answers of a chat whose limiter is this one: what Allow says, and what Record says after it.
  unfoldable pub answered : Answers → RedisLimiter redis → Moments → Text → Answers
  answered a l m player =
      let (answer, l') = allow redis l m.entering player (pos 0) in
      record a {
        allow = answer;
        record_error = (record_usage redis l' m.leaving player a.result.total_tokens).0;
      }

  -- What a chat does, and the limiter that it leaves.
  unfoldable pub serve :
      Handler
      → Answers
      → RedisLimiter redis
      → Moments
      → Text
      → ChatRequest
      → List Effect × RedisLimiter redis
  unfolding perform_all answered
  serve h a l m player req =
      let effects = handle_chat h (answered a l m player) player req in
      (effects, perform_all m l effects)
