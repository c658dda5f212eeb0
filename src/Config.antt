-- ===== src/Config.antt =====
-- internal/config/config.go: the configuration that the gateway reads from its environment. The
-- children prove: `Keys` and `Printing` about the list of Dify keys, `Loading` about all of it.
pub mod Keys
pub mod Printing
pub mod Loading
mod Tests
use dify_game_gateway.Base.{
  ℕ, [], ◌∷◌, ◌++◌, ◌+◌, none, some, true, false, Text, text, text_eq, List, Bool, Option, ◌||◌,
  if◌then◌else◌, is_empty, trim_space, cut, split_on, insert, ◌==◌,
}
use dify_game_gateway.Base.Int.{ℤ, pos, atoi, leb_ℤ}

-- What os.Getenv answers: a variable that is not set is empty.
abbrev pub Env : Type 0
Env = Text → Text

-- The errors of Load; the two of positiveInt differ in whether Atoi's error is wrapped.
pub data LoadError : Type 0 where
  missing : (name : Text) → LoadError
  invalid_mapping : (position : ℕ) → LoadError
  malformed_integer : (name : Text) → LoadError
  not_positive : (name : Text) → LoadError
  not_boolean : (name : Text) → LoadError

pub data Result {ℓ} (A : Type ℓ) : Type ℓ where
  ok : A → Result A
  err : LoadError → Result A

pub record Config : Type 0 where
  pub gateway_addr : Text
  pub gateway_admin_addr : Text
  pub dify_base_url : Text
  pub dify_app_keys : List (Text × Text)
  pub redis_addr : Text
  pub auth_jwt_pub_key : Text
  pub upstream_timeout_sec : ℤ
  pub rate_per_player : Text
  pub token_budget_daily : ℤ
  pub max_inflight_upstream : ℤ
  pub moderation_enabled : Bool
  pub gateway_service_name : Text
  pub otel_exporter_otlp_endpoint : Text

pub data Loaded : Type 0 where
  loaded : Config → Loaded
  failed : List LoadError → Loaded

unfoldable pub env_string : Env → Text → Text → Text
env_string env name fallback =
    let value = trim_space (env name) in if is_empty value then fallback else value

-- ReplaceAll of a backslash and an n by a line feed.
unfoldable pub replace_newlines : Text → Text
replace_newlines [] = []
replace_newlines (c ∷ []) = c ∷ []
replace_newlines (c ∷ d ∷ s) =
    let after = replace_newlines s in
    let next = replace_newlines (d ∷ s) in
    if c == 92 then (if d == b'n' then 10 ∷ after else c ∷ next) else c ∷ next

unfoldable pub normalize_pem_env : Text → Text
normalize_pem_env raw = replace_newlines (trim_space raw)

-- The name and the key of a pair, if it is a valid one.
unfoldable pub mapping_of : Option (Text × Text) → Option (Text × Text)
mapping_of none = none
mapping_of (some (name, key)) =
    if is_empty (trim_space name) || is_empty (trim_space key)
    then none
    else some (trim_space name, trim_space key)

abbrev pub app_keys : Text
app_keys = text "DIFY_APP_KEYS"

-- The loop of parseAppKeys from the pair at index i on, with the keys read so far.
unfoldable pub parse_pairs : ℕ → List (Text × Text) → List Text → Result (List (Text × Text))
unfolding mapping_of
parse_pairs i keys [] = if is_empty keys then err (missing app_keys) else ok keys
parse_pairs i keys (raw ∷ pairs) =
    let pair = trim_space raw in
    let skipped = parse_pairs (i + 1) keys pairs in
    if is_empty pair then skipped else elim (mapping_of (cut (text "=") pair)) [
      | none ↦ err (invalid_mapping (i + 1))
      | some (name, key) ↦ parse_pairs (i + 1) (insert name key keys) pairs
    ]

unfoldable pub parse_app_keys : Text → Result (List (Text × Text))
unfolding parse_pairs
parse_app_keys raw =
    let trimmed = trim_space raw in
    if is_empty trimmed then err (missing app_keys) else parse_pairs 0 [] (split_on b';' trimmed)

unfoldable pub positive : Text → Option ℤ → Result ℤ
positive name none = err (malformed_integer name)
positive name (some value) = if leb_ℤ value (pos 0) then err (not_positive name) else ok value

unfoldable pub positive_int : Text → Text → Result ℤ
unfolding positive
positive_int name raw = positive name (atoi raw)

abbrev pub is_one_of : Text → List Text → Bool
is_one_of s [] = false
is_one_of s (t ∷ ts) = text_eq s t || is_one_of s ts

-- strconv.ParseBool
unfoldable pub parse_bool : Text → Option Bool
parse_bool s =
    if is_one_of s (text "1" ∷ text "t" ∷ text "T" ∷ text "true" ∷ text "TRUE" ∷ text "True" ∷ [])
    then some true
    else if is_one_of s
        (text "0" ∷ text "f" ∷ text "F" ∷ text "false" ∷ text "FALSE" ∷ text "False" ∷ [])
    then some false
    else none

-- An integer variable: its default, if it is not set.
unfoldable pub optional_int : Env → Text → ℤ → Result ℤ
unfolding positive_int
optional_int env name fallback =
    let value = trim_space (env name) in
    if is_empty value then ok fallback else positive_int name value

unfoldable pub boolean : Text → Option Bool → Result Bool
boolean name none = err (not_boolean name)
boolean name (some b) = ok b

unfoldable pub optional_bool : Env → Text → Bool → Result Bool
unfolding boolean parse_bool
optional_bool env name fallback =
    let value = trim_space (env name) in
    if is_empty value then ok fallback else boolean name (parse_bool value)

-- A required variable that is empty is an error.
unfoldable pub required : Text → Text → List LoadError
required name value = if is_empty value then missing name ∷ [] else []

abbrev pub error_of {ℓ} : {A : Type ℓ} → Result A → List LoadError
error_of (ok _) = []
error_of (err e) = e ∷ []

abbrev pub value_of {ℓ} : {A : Type ℓ} → A → Result A → A
value_of zero_value (ok v) = v
value_of zero_value (err e) = zero_value

abbrev pub finish : List LoadError → Config → Loaded
finish [] cfg = loaded cfg
finish (e ∷ es) cfg = failed (e ∷ es)

-- Load: every variable is read, and every error is reported.
unfoldable pub load : Env → Loaded
unfolding env_string normalize_pem_env parse_app_keys optional_int optional_bool required
load env =
    let url = trim_space (env (text "DIFY_BASE_URL")) in
    let redis = trim_space (env (text "REDIS_ADDR")) in
    let key = normalize_pem_env (env (text "AUTH_JWT_PUBKEY")) in
    let keys = parse_app_keys (env app_keys) in
    let timeout = optional_int env (text "UPSTREAM_TIMEOUT_SEC") (pos 60) in
    let budget = optional_int env (text "TOKEN_BUDGET_DAILY") (pos 100_000) in
    let inflight = optional_int env (text "MAX_INFLIGHT_UPSTREAM") (pos 200) in
    let moderation = optional_bool env (text "MODERATION_ENABLED") true in
    finish
      (required (text "DIFY_BASE_URL") url
        ++ (required (text "REDIS_ADDR") redis
            ++ (required (text "AUTH_JWT_PUBKEY") key
                ++ (error_of keys
                    ++ (error_of timeout
                        ++ (error_of budget ++ (error_of inflight ++ error_of moderation)))))))
      (record {
        gateway_addr = env_string env (text "GATEWAY_ADDR") (text ":9000");
        gateway_admin_addr = env_string env (text "GATEWAY_ADMIN_ADDR") (text ":9001");
        dify_base_url = url;
        dify_app_keys = value_of [] keys;
        redis_addr = redis;
        auth_jwt_pub_key = key;
        upstream_timeout_sec = value_of (pos 0) timeout;
        rate_per_player = env_string env (text "RATE_PER_PLAYER") (text "1r/2s");
        token_budget_daily = value_of (pos 0) budget;
        max_inflight_upstream = value_of (pos 0) inflight;
        moderation_enabled = value_of false moderation;
        gateway_service_name =
            env_string env (text "GATEWAY_SERVICE_NAME") (text "game-ai-gateway");
        otel_exporter_otlp_endpoint = trim_space (env (text "OTEL_EXPORTER_OTLP_ENDPOINT"));
      })
