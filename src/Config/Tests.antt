-- ===== src/Config/Tests.antt =====
-- internal/config/config.go: the configuration on small inputs.
use dify_game_gateway.Base.{
  [], ◌∷◌, true, Text, text, text_eq, List, ◌≡◌, refl, arith, if◌then◌else◌, trim_space, cut,
  drop_prefix, split_on, insert,
}
use dify_game_gateway.Base.Int.{pos}
use dify_game_gateway.Config.{
  Env, Config, ok, loaded, load, parse_app_keys, app_keys, err, invalid_mapping, replace_newlines,
}
use dify_game_gateway.Config.Printing.{parse_app_keys-print_keys}
use dify_game_gateway.Config.Loading.{IsUsable, load-IsUsable}

abbrev two_keys : List (Text × Text)
two_keys = (text "smith", text "app-1") ∷ (text "default", text "app=2") ∷ []

parse_app_keys-print_keys_example : parse_app_keys (text "smith=app-1;default=app=2") ≡ ok two_keys
unfolding trim_space text_eq
parse_app_keys-print_keys_example =
    parse_app_keys-print_keys two_keys (ground arith) (ground arith) refl

parse_app_keys_bad : parse_app_keys (text "smith=a;; b") ≡ err (invalid_mapping 3)
unfolding parse_app_keys trim_space cut drop_prefix split_on insert
parse_app_keys_bad = refl

abbrev env : Env
env name =
    if text_eq name (text "DIFY_BASE_URL")
    then text "http://dify/v1"
    else if text_eq name (text "REDIS_ADDR")
    then text "redis:6379"
    else if text_eq name (text "AUTH_JWT_PUBKEY")
    then text "PEM"
    else if text_eq name app_keys
    then text "default=k"
    else []

abbrev expected : Config
expected = record {
  gateway_addr = text ":9000";
  gateway_admin_addr = text ":9001";
  dify_base_url = text "http://dify/v1";
  dify_app_keys = (text "default", text "k") ∷ [];
  redis_addr = text "redis:6379";
  auth_jwt_pub_key = text "PEM";
  upstream_timeout_sec = pos 60;
  rate_per_player = text "1r/2s";
  token_budget_daily = pos 100_000;
  max_inflight_upstream = pos 200;
  moderation_enabled = true;
  gateway_service_name = text "game-ai-gateway";
  otel_exporter_otlp_endpoint = [];
}

env_loads : load env ≡ loaded expected
unfolding load text_eq trim_space cut drop_prefix split_on insert replace_newlines
env_loads = refl

load-IsUsable_example : IsUsable expected
load-IsUsable_example = load-IsUsable env expected env_loads
