-- ===== src/Gateway.antt =====
-- internal/gateway/runtime.go: how the gateway is built from its configuration, and how it runs and ends.
-- The children prove.
pub mod Startup
mod Tests
use dify_game_gateway.Base.{
  [], ◌∷◌, ◌++◌, none, some, true, false, Text, text, List, Bool, Option, if◌then◌else◌, not, ℕ,
}
use dify_game_gateway.Base.Int.{ℤ, pos}
use dify_game_gateway.Circuit.{CircuitConfig}
use dify_game_gateway.Moderation.{
  Moderator, new_keyword_policy, new_policy_moderator, moderator_of, allow_all, allowed,
}
use dify_game_gateway.Session.{KeyFiles, new_authenticator}
use dify_game_gateway.Pipeline.Effects.{Handler}
use dify_game_gateway.Limiter.Redis.{Redis}
use dify_game_gateway.Limiter.Guards.{RedisLimiter}
use dify_game_gateway.Limiter.Creation.{LimiterConfig, LimiterError, Created, created, new_limiter}
use dify_game_gateway.Limiter.Creation
use dify_game_gateway.Router.{DifyRouter, RouterError, Made, made, new_dify_router}
use dify_game_gateway.Router
use dify_game_gateway.Config.{Config}

-- The circuit's settings that Build leaves at their zeros.
abbrev pub zero_circuit : CircuitConfig
zero_circuit = record {
  window = pos 0;
  min_samples = pos 0;
  threshold_num = pos 0;
  threshold_den = 1;
  open_duration = pos 0;
}

abbrev pub limiter_config : Config → LimiterConfig
limiter_config cfg = record {
  rate_per_player = cfg.rate_per_player;
  token_budget_daily = cfg.token_budget_daily;
  max_inflight_upstream = cfg.max_inflight_upstream;
  inflight_lease = pos 0;
  circuit = zero_circuit;
}

-- The keyword policy is made of no words.
unfoldable pub moderator_for : (ℕ → ℕ) → Bool → Moderator
moderator_for lower enabled =
    if enabled
    then moderator_of (new_policy_moderator (allowed lower (new_keyword_policy lower [])))
    else allow_all

-- pipeline.New, for a handler of which all parts are given: 15 seconds for the lock.
abbrev pub handler_with : Moderator → Handler
handler_with moderator = record {
  has_auth = true;
  has_limiter = true;
  has_store = true;
  has_assembler = true;
  has_dify = true;
  moderator = moderator;
  lock_ttl = 15_000_000_000;
}

-- What is done to the connection of Redis and to the admin server.
pub data Action : Type 0 where
  open_redis close_redis shut_admin : Action

-- What the select of Runtime.Run takes first: the end of the context, or what one of the two servers
-- sends, which is whether it ended with an error.
pub data First : Type 0 where
  context_done : First
  server_ended : (with_error : Bool) → First

-- Whether an error is returned.
unfoldable pub run_runtime : First → List Action × Bool
run_runtime context_done = (shut_admin ∷ [], false)
run_runtime (server_ended with_error) = if with_error then (shut_admin ∷ [], true) else ([], false)

-- The libraries and the world that Build meets.
pub record World : Type 1 where
  pub redis : Redis
  pub db : redis.Db
  pub files : KeyFiles
  pub parse_duration : Text → Option ℤ
  pub lower : ℕ → ℕ
  pub telemetry_fails : Bool
  pub instance_id : Text

module _ (w : World) where
  pub record Runtime : Type 0 where
    pub methods : List Text
    pub limiter : RedisLimiter w.redis
    pub router : DifyRouter
    pub handler : Handler

  pub data BuildError : Type 0 where
    bad_key : BuildError
    bad_limiter : LimiterError → BuildError
    bad_router : RouterError → BuildError
    bad_telemetry : BuildError

  pub data Built : Type 0 where
    built : Runtime → Built
    failed : BuildError → Built

  -- A failure once the connection is open closes it.
  abbrev pub abandon : BuildError → List Action × Built
  abandon e = (open_redis ∷ close_redis ∷ [], failed e)

  unfoldable pub with_router :
      Config → List Text → RedisLimiter w.redis → Made → List Action × Built
  with_router cfg methods l (Router.refused e) = abandon (bad_router e)
  with_router cfg methods l (Router.made r) = if w.telemetry_fails then abandon bad_telemetry else (
    open_redis ∷ [],
    built (record {
      methods = methods;
      limiter = l;
      router = r;
      handler = handler_with (moderator_for w.lower cfg.moderation_enabled);
    }),
  )

  unfoldable pub with_limiter : Config → List Text → Created w.redis → List Action × Built
  with_limiter cfg methods (Creation.refused e) = abandon (bad_limiter e)
  with_limiter cfg methods (Creation.created l) =
      with_router cfg methods l (new_dify_router cfg.dify_base_url cfg.dify_app_keys)

  unfoldable pub with_methods : Config → Option (List Text) → List Action × Built
  with_methods cfg none = ([], failed bad_key)
  with_methods cfg (some methods) =
      with_limiter cfg methods
        (new_limiter w.redis w.parse_duration w.db w.instance_id (limiter_config cfg))

  unfoldable pub build : Config → List Action × Built
  unfolding with_methods with_limiter with_router
  build cfg = with_methods cfg (new_authenticator w.files cfg.auth_jwt_pub_key)

  unfoldable pub run_built : First → List Action × Built → List Action × Bool
  run_built first (actions, failed e) = (actions, true)
  run_built first (actions, built rt) =
      let (rest, with_error) = run_runtime first in
      (actions ++ (rest ++ close_redis ∷ []), with_error)

  -- Run; the connection is closed by its deferred Close.
  unfoldable pub run : Config → First → List Action × Bool
  unfolding run_built run_runtime
  run cfg first = run_built first (build cfg)
