-- ===== src/Wire.antt =====
-- api/proto/gateway.proto: the envelopes of the wire, one constructor for each body of the `oneof`.
use dify_game_gateway.Base.{ℕ, Text, Bool, List}

pub record AuthRequest : Type 0 where
  pub session_token : Text
  pub player_id : Text

pub record ChatRequest : Type 0 where
  pub request_id : Text
  pub npc_id : Text
  pub query : Text
  pub conversation_id : Text
  pub context : List (Text × Text)

pub record ResetRequest : Type 0 where
  pub request_id : Text
  pub npc_id : Text

-- `unknown` is an envelope with no body, or with one that this version does not know.
pub data ClientEnvelope : Type 0 where
  auth : AuthRequest → ClientEnvelope
  chat : ChatRequest → ClientEnvelope
  stop : (request_id : Text) → ClientEnvelope
  ping : ClientEnvelope
  reset : ResetRequest → ClientEnvelope
  unknown : ClientEnvelope

-- `total_tokens` is a uint32.
pub data ServerEnvelope : Type 0 where
  auth_result : (ok : Bool) (reason : Text) → ServerEnvelope
  chunk : (request_id delta : Text) → ServerEnvelope
  done : (request_id conversation_id : Text) (total_tokens : ℕ) → ServerEnvelope
  error : (request_id code message : Text) → ServerEnvelope
  pong : ServerEnvelope
  blocked : (request_id fallback : Text) → ServerEnvelope
