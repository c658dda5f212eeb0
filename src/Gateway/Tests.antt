-- ===== src/Gateway/Tests.antt =====
-- internal/gateway/runtime.go: the start of the gateway on small inputs.
use dify_game_gateway.Base.{
  [], ◌∷◌, none, some, true, false, Text, text, text_eq, Option, ◌≡◌, ◌≤◌, refl, if◌then◌else◌,
  trim_space, cut, drop_prefix, split_on, insert, digits,
}
use mathlib.Core.Option
use dify_game_gateway.Base.Int.{ℤ, pos, atoi}
use dify_game_gateway.Session.{KeyFiles, new_authenticator}
use dify_game_gateway.Pipeline.Chat.{ready}
use dify_game_gateway.Pipeline.Tally.{count}
use dify_game_gateway.Limiter.Memory.{memory, empty_memory}
use dify_game_gateway.Limiter.Creation.{RateLimit, rate, parse_rate}
use dify_game_gateway.Limiter.Setup.{IsReady}
use dify_game_gateway.Config.{Env, Config, loaded, load, app_keys, replace_newlines}
use dify_game_gateway.Gateway.{World, Runtime, build, built, run, context_done, open_redis}
use dify_game_gateway.Gateway.Startup.{is_open, is_close, run-closes, load-builds}

abbrev env : Env
env name =
    if text_eq name (text "DIFY_BASE_URL")
    then text "http://dify/v1"
    else if text_eq name (text "REDIS_ADDR")
    then text "redis:6379"
    else if text_eq name (text "AUTH_JWT_PUBKEY")
    then text "PEM"
    else if text_eq name app_keys
    then text "default=k"
    else []

abbrev config : Config
config = record {
  gateway_addr = text ":9000";
  gateway_admin_addr = text ":9001";
  dify_base_url = text "http://dify/v1";
  dify_app_keys = (text "default", text "k") ∷ [];
  redis_addr = text "redis:6379";
  auth_jwt_pub_key = text "PEM";
  upstream_timeout_sec = pos 60;
  rate_per_player = text "1r/2s";
  token_budget_daily = pos 100_000;
  max_inflight_upstream = pos 200;
  moderation_enabled = true;
  gateway_service_name = text "game-ai-gateway";
  otel_exporter_otlp_endpoint = [];
}

config_loads : load env ≡ loaded config
unfolding load text_eq trim_space cut drop_prefix split_on insert replace_newlines
config_loads = refl

-- The durations of the tests.
abbrev durations : Text → Option ℤ
durations s = if text_eq s (text "2s") then some (pos 2_000_000_000) else none

abbrev files : KeyFiles
files = record {
  decode_block = λ pem. some pem;
  parse_pkix = λ block. none;
  is_pkcs1 = λ block. true;
}

abbrev world : World
world = record {
  redis = memory;
  db = empty_memory;
  files = files;
  parse_duration = durations;
  lower = λ c. c;
  telemetry_fails = false;
  instance_id = text "g";
}

abbrev two_seconds : RateLimit
two_seconds = record { limit = 1; window = 2_000_000_000 }

rate_parses : parse_rate durations (text "1r/2s") ≡ rate two_seconds
unfolding parse_rate trim_space cut drop_prefix atoi text_eq Option.bind digits
rate_parses = refl

load-builds_example :
    (rt : Runtime world) × (build world config ≡ (open_redis ∷ [], built rt))
    × IsReady memory rt.limiter
    × (ready rt.handler ≡ true)
unfolding new_authenticator
load-builds_example =
    load-builds world env config
      (text "RS256" ∷ text "RS384" ∷ text "RS512" ∷ text "PS256" ∷ text "PS384" ∷ text "PS512" ∷ [])
      two_seconds config_loads refl rate_parses refl

run-closes_example :
    let actions = (run world config context_done).0 in
    (count is_open actions ≡ count is_close actions) × (count is_open actions ≤ 1)
run-closes_example = run-closes world config context_done
