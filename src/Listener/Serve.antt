-- ===== src/Listener/Serve.antt =====
-- internal/listener/listener.go, ServeConn: the whole read loop of a connection, over the bytes that
-- its client sends. `unmarshal` is protobuf's reading of a ClientEnvelope.
use dify_game_gateway.Base.{
  ℕ, zero, suc, ◌+◌, Bool, Option, none, some, List, if◌then◌else◌, length, Text,
}
use dify_game_gateway.Wire.{ClientEnvelope}
use dify_game_gateway.Codec.{Reader}
use dify_game_gateway.Codec.Envelope.{envelope, fault, read_envelope}
use dify_game_gateway.Listener.{Services, Conn, open_conn, dispatch, shut}

-- A turn of the loop: whether the deadline cannot be set, and whether the connection's context is
-- done once a frame has come. An idle timeout is a connection that ends broken.
pub record Turn : Type 0 where
  pub deadline_fails : Bool
  pub cancelled : Bool

module _ (s : Services) (unmarshal : List ℕ → Option ClientEnvelope) (turn : ℕ → Turn) where
  -- The loop from turn n on; no answer is a loop that has not come to its end.
  unfoldable pub serve_from : ℕ → ℕ → Conn → Reader → Option Conn
  serve_from zero n c r = none
  serve_from (suc fuel) n c r =
      if (turn n).deadline_fails then some (shut c) else elim (read_envelope unmarshal r) [
        | fault e ↦ some (shut c)
        | envelope msg rest ↦
            let next = serve_from fuel (n + 1) (dispatch s c msg) rest in
            if (turn n).cancelled then some (shut c) else next
      ]

  -- One turn more than the bytes that are to come.
  unfoldable pub serve_conn : Text → Text → Reader → Option Conn
  unfolding serve_from
  serve_conn id remote_addr r = serve_from (suc (length r.pending)) 0 (open_conn id remote_addr) r
