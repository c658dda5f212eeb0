-- ===== src/Router/Tests.antt =====
-- internal/gateway/dify_router.go: the routes on small inputs.
use dify_game_gateway.Base.{
  [], ◌∷◌, some, true, text, text_eq, ◌≡◌, refl, if◌then◌else◌, trim_space, cut, drop_prefix,
  split_on, insert, lookup, after_last,
}
use dify_game_gateway.Base.Int.{pos}
use dify_game_gateway.Wire.{ChatRequest}
use dify_game_gateway.Pipeline.Stream.{user_id}
use dify_game_gateway.Pipeline.Chat.{request_of}
use dify_game_gateway.Config.{Env, Config, loaded, load, app_keys, replace_newlines}
use dify_game_gateway.Dify.{new_client}
use dify_game_gateway.Router.{DifyRouter, made, new_dify_router, client_for_user, npc_id_from_user}
use dify_game_gateway.Router.Routes.{load-routes}

abbrev env : Env
env name =
    if text_eq name (text "DIFY_BASE_URL")
    then text "http://dify/v1"
    else if text_eq name (text "REDIS_ADDR")
    then text "redis:6379"
    else if text_eq name (text "AUTH_JWT_PUBKEY")
    then text "PEM"
    else if text_eq name app_keys
    then text "smith=app-1;default=app-2"
    else []

abbrev config : Config
config = record {
  gateway_addr = text ":9000";
  gateway_admin_addr = text ":9001";
  dify_base_url = text "http://dify/v1";
  dify_app_keys = (text "smith", text "app-1") ∷ (text "default", text "app-2") ∷ [];
  redis_addr = text "redis:6379";
  auth_jwt_pub_key = text "PEM";
  upstream_timeout_sec = pos 60;
  rate_per_player = text "1r/2s";
  token_budget_daily = pos 100_000;
  max_inflight_upstream = pos 200;
  moderation_enabled = true;
  gateway_service_name = text "game-ai-gateway";
  otel_exporter_otlp_endpoint = [];
}

config_loads : load env ≡ loaded config
unfolding load text_eq trim_space cut drop_prefix split_on insert replace_newlines
config_loads = refl

abbrev hello : ChatRequest
hello = record {
  request_id = text "r1";
  npc_id = text " smith ";
  query = text "Hi";
  conversation_id = [];
  context = [];
}

load-routes_example :
    (r : DifyRouter) × (new_dify_router (text "http://dify/v1") config.dify_app_keys ≡ made r)
    × (client_for_user r (user_id (text "a:b") (text "smith"))
        ≡ some (new_client (text "http://dify/v1") (text "app-1")))
unfolding trim_space lookup text_eq request_of
load-routes_example =
    load-routes env config (text "a:b") hello config_loads refl
      (refl, (refl, (refl, (refl, (refl, tt)))))

-- An NPC whose id has a colon is taken for another.
npc_id_with_colon : npc_id_from_user (user_id (text "hero") (text "guild:smith")) ≡ text "smith"
unfolding npc_id_from_user trim_space after_last
npc_id_with_colon = refl
