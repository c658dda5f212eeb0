-- ===== src/Config/Loading.antt =====
-- internal/config/config.go, Load: what a configuration that is accepted is like.
use dify_game_gateway.Base.{
  ap, ◌∙◌, trim_space_of_IsTrimmed, trim_space-IsTrimmed, DistinctKeys, [], ◌∷◌, ◌++◌, none, some,
  false, Text, text, List, Option, ◌≡◌, refl, subst, All, is_empty, trim_space, Bool-cases, inl,
  inr, arith,
}
use dify_game_gateway.Base.Int.{ℤ, pos, ◌≤ℤ◌, atoi}
use dify_game_gateway.Config.{
  Env, Result, ok, err, LoadError, Config, loaded, load, finish, error_of, value_of, required,
  optional_int, positive_int, positive, parse_app_keys, app_keys,
}
use dify_game_gateway.Config.Keys.{IsMapping, parse_app_keys-IsMapping, parse_app_keys-DistinctKeys}

-- What the rest of the gateway relies on in a configuration.
pub record IsUsable (cfg : Config) : Type 0 where
  pub url_set : is_empty (trim_space cfg.dify_base_url) ≡ false
  pub redis_set : is_empty cfg.redis_addr ≡ false
  pub key_set : is_empty cfg.auth_jwt_pub_key ≡ false
  pub keys_sound : All IsMapping cfg.dify_app_keys
  pub keys_distinct : DistinctKeys cfg.dify_app_keys
  pub keys_filled : is_empty cfg.dify_app_keys ≡ false
  pub timeout_pos : pos 1 ≤ℤ cfg.upstream_timeout_sec
  pub budget_pos : pos 1 ≤ℤ cfg.token_budget_daily
  pub inflight_pos : pos 1 ≤ℤ cfg.max_inflight_upstream

nil_of_append {ℓ} : {A : Type ℓ} (xs ys : List A) → xs ++ ys ≡ [] → (xs ≡ []) × (ys ≡ [])
nil_of_append [] ys h = (refl, h)
nil_of_append (x ∷ xs) ys h = cc

finish-loaded :
    (es : List LoadError) (c cfg : Config) → finish es c ≡ loaded cfg → (es ≡ []) × (c ≡ cfg)
finish-loaded [] c cfg h = (refl, cc)
finish-loaded (e ∷ es) c cfg h = cc

required_set : (name value : Text) → required name value ≡ [] → is_empty value ≡ false
unfolding required
required_set name [] h = cc
required_set name (c ∷ s) h = refl

trimmed_set :
    (name raw : Text)
    → required name (trim_space raw) ≡ []
    → is_empty (trim_space (trim_space raw)) ≡ false
trimmed_set name raw h =
    ap is_empty (trim_space_of_IsTrimmed (trim_space raw) (trim_space-IsTrimmed raw))
    ∙ required_set name (trim_space raw) h

positive-pos :
    (name : Text) (o : Option ℤ)
    → error_of (positive name o) ≡ []
    → pos 1 ≤ℤ value_of (pos 0) (positive name o)
unfolding positive
positive-pos name none h = cc
positive-pos name (some v) h = ground arith

optional_int-pos :
    (env : Env) (name : Text) (fallback : ℤ)
    → pos 1 ≤ℤ fallback
    → error_of (optional_int env name fallback) ≡ []
    → pos 1 ≤ℤ value_of (pos 0) (optional_int env name fallback)
unfolding optional_int positive_int
optional_int-pos env name fallback h k = elim (Bool-cases (is_empty (trim_space (env name)))) [
  | inl unset ↦ rw unset h
  | inr set ↦ rw set (positive-pos name (atoi (trim_space (env name))) (rw set at k))
]

keys_of :
    (raw : Text) (o : Result (List (Text × Text)))
    → parse_app_keys raw ≡ o
    → error_of o ≡ []
    → All IsMapping (value_of [] o)
      × (is_empty (value_of [] o) ≡ false)
      × DistinctKeys (value_of [] o)
keys_of raw (ok keys) e h =
    let (sound, filled) = parse_app_keys-IsMapping raw keys e in
    (sound, filled, parse_app_keys-DistinctKeys raw keys e)
keys_of raw (err error) e h = cc

-- A configuration that Load accepts can be used: its address of Dify, its Redis and its key are set, it has
-- a Dify key, its keys have names that differ, and its limits are positive.
pub load-IsUsable : (env : Env) (cfg : Config) → load env ≡ loaded cfg → IsUsable cfg
unfolding load
load-IsUsable env cfg h =
    let (none_failed, same) = finish-loaded _ _ cfg h in
    let (url, after_url) = nil_of_append (required (text "DIFY_BASE_URL") _) _ none_failed in
    let (redis, after_redis) = nil_of_append (required (text "REDIS_ADDR") _) _ after_url in
    let (key, after_key) = nil_of_append (required (text "AUTH_JWT_PUBKEY") _) _ after_redis in
    let (keys, after_keys) = nil_of_append (error_of (parse_app_keys (env app_keys))) _ after_key in
    let (timeout, after_timeout) =
      nil_of_append (error_of (optional_int env (text "UPSTREAM_TIMEOUT_SEC") (pos 60))) _
        after_keys in
    let (budget, after_budget) =
      nil_of_append (error_of (optional_int env (text "TOKEN_BUDGET_DAILY") (pos 100_000))) _
        after_timeout in
    let (inflight, _) =
      nil_of_append (error_of (optional_int env (text "MAX_INFLIGHT_UPSTREAM") (pos 200))) _
        after_budget in
    let (sound, filled, distinct) = keys_of (env app_keys) _ refl keys in
    subst IsUsable same (record {
      url_set = trimmed_set (text "DIFY_BASE_URL") (env (text "DIFY_BASE_URL")) url;
      redis_set = required_set (text "REDIS_ADDR") _ redis;
      key_set = required_set (text "AUTH_JWT_PUBKEY") _ key;
      keys_sound = sound;
      keys_distinct = distinct;
      keys_filled = filled;
      timeout_pos =
          optional_int-pos env (text "UPSTREAM_TIMEOUT_SEC") (pos 60) (omega arith) timeout;
      budget_pos =
          optional_int-pos env (text "TOKEN_BUDGET_DAILY") (pos 100_000) (omega arith) budget;
      inflight_pos =
          optional_int-pos env (text "MAX_INFLIGHT_UPSTREAM") (pos 200) (omega arith) inflight;
    })
