-- ===== src/Gateway/Startup.antt =====
-- internal/gateway/runtime.go: what Build and Run do with what they open, and when the gateway starts.
use dify_game_gateway.Base.{
  Bool-cases, inl, inr, subst, sym, ℕ, [], ◌∷◌, ◌≤◌, none, some, true, false, Text, List, Bool,
  Option, ◌≡◌, refl, arith,
}
use dify_game_gateway.Base.Int.{pos, pos_part, leb_ℤ}
use dify_game_gateway.Circuit.{new_circuit_breaker, Breaker, closed}
use dify_game_gateway.Moderation.{
  new_keyword_policy, new_policy_moderator, moderator_of, allow_all, allowed,
}
use dify_game_gateway.Session.{new_authenticator}
use dify_game_gateway.Pipeline.Chat.{ready}
use dify_game_gateway.Pipeline.Tally.{count}
use dify_game_gateway.Limiter.Creation.{
  Rate, RateLimit, rate, parse_rate, new_limiter, checked, Created, in_ms,
}
use dify_game_gateway.Limiter.Creation
use dify_game_gateway.Limiter.Setup.{IsReady, new_limiter-IsReady}
use dify_game_gateway.Limiter.Guards.{RedisLimiter}
use dify_game_gateway.Router.{Made, made, new_dify_router}
use dify_game_gateway.Router
use dify_game_gateway.Router.Routes.{made_router}
use dify_game_gateway.Config.{Env, Config, load, loaded}
use dify_game_gateway.Config.Loading.{IsUsable, load-IsUsable}
use dify_game_gateway.Gateway.{
  Action, open_redis, close_redis, World, Runtime, Built, built, failed, build, run, run_built,
  run_runtime, First, context_done, server_ended, moderator_for, limiter_config, handler_with,
  with_methods, with_limiter, with_router,
}

abbrev pub is_open : Action → Bool
is_open open_redis = true
is_open _ = false

abbrev pub is_close : Action → Bool
is_close close_redis = true
is_close _ = false

-- Whether moderation is switched on or off, the moderator that Build makes lets every text pass: its list
-- of banned words is empty.
pub moderator_for-passes :
    (lower : ℕ → ℕ) (enabled : Bool) (s : Text)
    → ((moderator_for lower enabled).check_input s ≡ (true, []))
      × ((moderator_for lower enabled).check_output s ≡ (true, []))
unfolding moderator_for new_keyword_policy new_policy_moderator moderator_of allow_all allowed
moderator_for-passes lower true s = (refl, refl)
moderator_for-passes lower false s = (refl, refl)

-- The breaker of a circuit whose settings are left at their zeros.
abbrev default_breaker : Breaker
default_breaker = record {
  cfg = record {
    window = 20;
    min_samples = 5;
    threshold_num = 1;
    threshold_den = 2;
    open_duration = 30_000_000_000;
  };
  state = closed;
  opened_at = 0;
  probe_active = false;
  probe_started_at = 0;
  events = [];
  gauge = 0;
}

module _ (w : World) where
  -- What Build has done: an open connection exactly if there is a runtime.
  abbrev IsTidy : List Action × Built w → Type 0
  IsTidy (actions, built rt) = actions ≡ open_redis ∷ []
  IsTidy (actions, failed e) =
      (count is_open actions ≡ count is_close actions) × (count is_open actions ≤ 1)

  with_router-IsTidy :
      (cfg : Config) (methods : List Text) (l : RedisLimiter w.redis) (m : Made)
      → IsTidy (with_router w cfg methods l m)
  unfolding with_router
  with_router-IsTidy cfg methods l (Router.refused e) = (refl, omega arith)
  with_router-IsTidy cfg methods l (Router.made r) = elim (Bool-cases w.telemetry_fails) [
    | inl down ↦ rw down (refl, omega arith)
    | inr up ↦ rw up refl
  ]

  with_limiter-IsTidy :
      (cfg : Config) (methods : List Text) (o : Created w.redis)
      → IsTidy (with_limiter w cfg methods o)
  unfolding with_limiter
  with_limiter-IsTidy cfg methods (Creation.refused e) = (refl, omega arith)
  with_limiter-IsTidy cfg methods (Creation.created l) = with_router-IsTidy cfg methods l _

  with_methods-IsTidy : (cfg : Config) (o : Option (List Text)) → IsTidy (with_methods w cfg o)
  unfolding with_methods
  with_methods-IsTidy cfg none = (refl, omega arith)
  with_methods-IsTidy cfg (some methods) = with_limiter-IsTidy cfg methods _

  run_built-closes :
      (first : First) (b : List Action × Built w)
      → IsTidy b
      → let actions = (run_built w first b).0 in
        (count is_open actions ≡ count is_close actions) × (count is_open actions ≤ 1)
  unfolding run_built run_runtime
  run_built-closes first (actions, failed e) tidy = tidy
  run_built-closes context_done (actions, built rt) tidy = rw tidy (refl, omega arith)
  run_built-closes (server_ended true) (actions, built rt) tidy = rw tidy (refl, omega arith)
  run_built-closes (server_ended false) (actions, built rt) tidy = rw tidy (refl, omega arith)

  -- Run leaks no connection: whatever fails while the gateway is built, and however its run ends, the
  -- connection of Redis is opened at most once and closed as often as it was opened.
  pub run-closes :
      (cfg : Config) (first : First)
      → let actions = (run w cfg first).0 in
        (count is_open actions ≡ count is_close actions) × (count is_open actions ≤ 1)
  unfolding run build
  run-closes cfg first = run_built-closes first (build w cfg) (with_methods-IsTidy cfg _)

  new_limiter-created :
      (cfg : Config) (r : RateLimit)
      → IsUsable cfg
      → parse_rate w.parse_duration cfg.rate_per_player ≡ rate r
      → (l : RedisLimiter w.redis) × (new_limiter w.redis w.parse_duration w.db w.instance_id
            (limiter_config cfg)
          ≡ Creation.created l)
  unfolding new_limiter new_circuit_breaker
  new_limiter-created cfg r usable parsed =
      let budget : leb_ℤ cfg.token_budget_daily (pos 0) ≡ false =
        ground (arith, usable.budget_pos) in
      let inflight : leb_ℤ cfg.max_inflight_upstream (pos 0) ≡ false =
        ground (arith, usable.inflight_pos) in
      let l : RedisLimiter w.redis = record {
        db = w.db;
        rate_limit = r.limit;
        window_ms = in_ms w.redis r.window;
        token_budget = cfg.token_budget_daily;
        max_inflight = pos_part cfg.max_inflight_upstream;
        inflight_ttl_ms = 120_000;
        circuit = default_breaker;
        instance_id = w.instance_id;
        member_serial = 0;
        inflight_gauge = 0;
        rate_limited_total = 0;
      } in
      subst
        (λ (o : Rate).
          (x : RedisLimiter w.redis) × (checked w.redis w.db w.instance_id (limiter_config cfg) o
            ≡ Creation.created x))
        (sym parsed) (l, rw (budget, inflight) refl)

  -- The gateway starts: with a configuration that Load accepts, a public key of a known kind, a rate that
  -- can be parsed and telemetry that comes up, Build succeeds with one open connection, a ready limiter and a
  -- handler that has all its parts.
  pub load-builds :
      (env : Env) (cfg : Config) (methods : List Text) (r : RateLimit)
      → load env ≡ loaded cfg
      → new_authenticator w.files cfg.auth_jwt_pub_key ≡ some methods
      → parse_rate w.parse_duration cfg.rate_per_player ≡ rate r
      → w.telemetry_fails ≡ false
      → (rt : Runtime w) × (build w cfg ≡ (open_redis ∷ [], built rt))
        × IsReady w.redis rt.limiter
        × (ready rt.handler ≡ true)
  unfolding build with_methods with_limiter with_router ready
  load-builds env cfg methods r accepted key parsed up =
      let usable = load-IsUsable env cfg accepted in
      let (l, limited) = new_limiter-created cfg r usable parsed in
      let (router, routed, _, _) =
        made_router cfg.dify_base_url cfg.dify_app_keys usable.url_set usable.keys_filled
          usable.keys_sound usable.keys_distinct in
      let rt : Runtime w = record {
        methods = methods;
        limiter = l;
        router = router;
        handler = handler_with (moderator_for w.lower cfg.moderation_enabled);
      } in
      (
        rt,
        rw (key, limited, routed, up) refl,
        new_limiter-IsReady w.redis w.parse_duration w.db w.instance_id (limiter_config cfg) l
            limited,
        refl,
      )
