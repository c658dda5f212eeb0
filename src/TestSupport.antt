-- ===== src/TestSupport.antt =====
-- internal/testsupport/testsupport.go: the client of the load harness. It writes client envelopes and reads server
-- envelopes (internal/codec/envelope.go, ReadServerEnvelope). Protobuf is a parameter, and so is the clock. The
-- deadline of a connection is how its reading ends.
pub mod Chats
mod Dependencies
mod Tests
pub mod Turns
use dify_game_gateway.Base.{
  ℕ, zero, suc, [], none, some, true, false, Text, List, Bool, Option, if◌then◌else◌, length,
}
use dify_game_gateway.Wire.{
  ClientEnvelope, auth, chat, ServerEnvelope, auth_result, chunk, done, error, blocked,
}
use dify_game_gateway.Codec.{Reader, Writing}
use dify_game_gateway.Codec.Envelope.{
  EnvelopeError, ReadResult, envelope, fault, read_envelope, write_envelope,
}

-- ReadServerEnvelope.
unfoldable pub read_server_envelope :
    (List ℕ → Option ServerEnvelope) → Reader → ReadResult ServerEnvelope
read_server_envelope unmarshal r = read_envelope unmarshal r

-- How the handshake ends.
pub data Handshake : Type 0 where
  admitted : Handshake
  rejected : (reason : Text) → Handshake
  failed : EnvelopeError → Handshake

-- GetAuthResult, GetOk and GetReason: another envelope has no result.
unfoldable pub verdict_of : ServerEnvelope → Handshake
verdict_of (auth_result ok reason) = if ok then admitted else rejected reason
verdict_of _ = rejected []

unfoldable pub auth_request : Text → ClientEnvelope
auth_request player = auth (record { session_token = player; player_id = player })

unfoldable pub chat_request : Text → Text → Text → ClientEnvelope
chat_request req_id npc query = chat (record {
  request_id = req_id;
  npc_id = npc;
  query = query;
  conversation_id = [];
  context = [];
})

module _ (marshal : ClientEnvelope → Option (List ℕ))
    (unmarshal : List ℕ → Option ServerEnvelope) where
  unfoldable pub handshake : ReadResult ServerEnvelope → Handshake
  unfolding verdict_of
  handshake (fault e) = failed e
  handshake (envelope msg rest) = verdict_of msg

  -- Authenticate: what the client has sent then, and how the handshake ends.
  unfoldable pub authenticate : Writing → Text → Reader → List ℕ × Handshake
  unfolding handshake auth_request read_server_envelope
  authenticate w player r =
      let (sent, outcome) = write_envelope marshal w (auth_request player) [] in
      elim outcome [
        | some e ↦ (sent, failed e)
        | none ↦ (sent, handshake (read_server_envelope unmarshal r))
      ]

  unfoldable pub send_chat : Writing → Text → Text → Text → List ℕ → List ℕ × Option EnvelopeError
  unfolding chat_request
  send_chat w req_id npc query sent = write_envelope marshal w (chat_request req_id npc query) sent

-- What ReadTurn returns; the times are since the start of the turn.
pub record Turn : Type 0 where
  pub ok : Bool
  pub first_token : ℕ
  pub saw_token : Bool

abbrev pub started : Turn
started = record { ok = false; first_token = 0; saw_token = false }

-- What an envelope does to a turn: the turn goes on, or it ends.
unfoldable pub on_envelope : Turn → ℕ → ServerEnvelope → Turn × Bool
on_envelope t now (chunk _ _) =
    (if t.saw_token then t else record t { first_token = now; saw_token = true }, false)
on_envelope t now (done _ _ _) = (record t { ok = true }, true)
on_envelope t now (blocked _ _) = (record t { ok = true }, true)
on_envelope t now (error _ _ _) = (t, true)
on_envelope t now _ = (t, false)

-- `since` is the time at which the n-th frame is read.
module _ (unmarshal : List ℕ → Option ServerEnvelope) (since : ℕ → ℕ) where
  -- The loop of ReadTurn from the n-th frame on; no answer is a loop that has not come to its end.
  unfoldable pub read_turn_from : ℕ → ℕ → Turn → Reader → Option Turn
  unfolding read_server_envelope
  read_turn_from zero n t r = none
  read_turn_from (suc fuel) n t r = elim (read_server_envelope unmarshal r) [
    | fault e ↦ some (record t { ok = false; first_token = 0 })
    | envelope msg rest ↦
        let (t', over) = on_envelope t (since n) msg in
        let later = read_turn_from fuel (suc n) t' rest in if over then some t' else later
  ]

  -- One frame more than the bytes that are to come.
  unfoldable pub read_turn : Reader → Option Turn
  unfolding read_turn_from
  read_turn r = read_turn_from (suc (length r.pending)) 0 started r
