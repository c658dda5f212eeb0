-- ===== src/Session.antt =====
-- internal/session/session.go and internal/auth/auth.go: the player that a connection is bound to, and
-- the check of the session token that binds it. The JWT library is a parameter: what it answers for a
-- token is an argument.
pub mod Binding
mod Tests
use dify_game_gateway.Base.{
  [], ◌∷◌, true, false, Option, Bool, Text, if◌then◌else◌, List, text, is_empty, some, none,
}

-- The read-write mutex makes each method one step; the creation time is left out.
pub record Session : Type 0 where
  pub id : Text
  pub remote_addr : Text
  pub player_id : Text
  pub authed : Bool

unfoldable pub new_session : Text → Text → Session
new_session id remote_addr = record {
  id = id;
  remote_addr = remote_addr;
  player_id = [];
  authed = false;
}

unfoldable pub bind : Session → Text → Session
bind s player = record s { player_id = player; authed = true }

-- What ParseWithClaims answers: an error, by whether it is jwt.ErrTokenExpired, or a token with its
-- validity and the player_id of its claims.
pub data Parsed : Type 0 where
  expired : Parsed
  failed : Parsed
  token : (valid : Bool) (player_id : Text) → Parsed

pub data Verified : Type 0 where
  player : Text → Verified
  expired_token : Verified
  invalid_token : Verified

unfoldable pub verify : Parsed → Verified
verify expired = expired_token
verify failed = invalid_token
verify (token false player_id) = invalid_token
verify (token true player_id) = if is_empty player_id then invalid_token else player player_id

bind_verified : Session → Verified → Bool × Text × Session
bind_verified s expired_token = (false, text "session token expired", s)
bind_verified s invalid_token = (false, text "invalid session token", s)
bind_verified s (player p) = (true, [], bind s p)

-- `parse` is the JWT library with the gateway's key and its pinned methods.
unfoldable pub bind_session : (Text → Parsed) → Session → Text → Bool × Text × Session
unfolding bind_verified verify
bind_session parse s session_token =
    if is_empty session_token
    then (false, text "missing session token", s)
    else bind_verified s (verify (parse session_token))

-- The kinds of public keys that crypto/x509 gives.
pub data PublicKey : Type 0 where
  rsa ecdsa ed25519 unsupported : PublicKey

unfoldable pub methods_for_key : PublicKey → Option (List Text)
methods_for_key rsa =
    some
      (text "RS256" ∷ text "RS384" ∷ text "RS512" ∷ text "PS256" ∷ text "PS384" ∷ text "PS512" ∷ [])
methods_for_key ecdsa = some (text "ES256" ∷ text "ES384" ∷ text "ES512" ∷ [])
methods_for_key ed25519 = some (text "EdDSA" ∷ [])
methods_for_key unsupported = none

-- What encoding/pem and crypto/x509 give for a text: its block, and the keys that a block holds.
pub record KeyFiles : Type 0 where
  pub decode_block : Text → Option Text
  pub parse_pkix : Text → Option PublicKey
  pub is_pkcs1 : Text → Bool

-- PKIX first, then the older form of RSA keys.
unfoldable pub key_of_block : KeyFiles → Text → Option PublicKey
key_of_block files block = elim (files.parse_pkix block) [
  | some key ↦ some key
  | none ↦ if files.is_pkcs1 block then some rsa else none
]

unfoldable pub parse_public_key : KeyFiles → Text → Option PublicKey
unfolding key_of_block
parse_public_key files pem = elim (files.decode_block pem) [
  | none ↦ none
  | some block ↦ key_of_block files block
]

-- New: the methods that the parser of tokens is pinned to.
unfoldable pub new_authenticator : KeyFiles → Text → Option (List Text)
unfolding parse_public_key methods_for_key
new_authenticator files pem = elim (parse_public_key files pem) [
  | none ↦ none
  | some key ↦ methods_for_key key
]
