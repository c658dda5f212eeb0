-- ===== src/Listener/Reading.antt =====
-- internal/listener/listener.go, ServeConn: the read loop comes to its end, and what it has done then.
use dify_game_gateway.Base.{
  ℕ, zero, suc, ◌+◌, ◌≤◌, ◌<◌, false, Option, some, List, [], ◌∷◌, ◌≡◌, refl, ap, ◌∙◌, subst, inl,
  inr, length, Text, All, Bool-cases, arith,
}
use dify_game_gateway.Wire.{ClientEnvelope}
use dify_game_gateway.Codec.{Reader, closed}
use dify_game_gateway.Codec.Envelope.{read_envelope}
use dify_game_gateway.Codec.Progress.{Consumes, read_envelope-Consumes, read_envelope_at_end}
use dify_game_gateway.Codec.Sequence.{
  ReadResult-cases, IsWritable, write_each, write_envelope-frame, frames_of, write_each-frames_of,
}
use dify_game_gateway.Listener.{Services, Conn, open_conn, dispatch, shut}
use dify_game_gateway.Listener.Access.{dispatch_all}
use dify_game_gateway.Listener.Serve.{Turn, serve_from, serve_conn}

module _ (s : Services) (unmarshal : List ℕ → Option ClientEnvelope) (turn : ℕ → Turn) where
  -- The loop has ended, with the connection shut after the dispatch of some envelopes.
  abbrev Ends : Conn → Option Conn → Type 0
  Ends c o = (es : List ClientEnvelope) × (o ≡ some (shut (dispatch_all s c es)))

  serve_from-Ends :
      (fuel n : ℕ) (c : Conn) (r : Reader)
      → length r.pending < fuel
      → Ends c (serve_from s unmarshal turn fuel n c r)
  unfolding serve_from
  serve_from-Ends zero n c r h = elim h [ ]
  serve_from-Ends (suc fuel) n c r h = elim (Bool-cases (turn n).deadline_fails) [
    | inl late ↦ ([], rw late refl)
    | inr fine ↦ elim (ReadResult-cases (read_envelope unmarshal r)) [
      | inr (e, over) ↦ ([], rw (fine, over, serve_from) refl)
      | inl (msg, rest, got) ↦
          let less : length rest.pending + 4 ≤ length r.pending =
            subst (Consumes unmarshal (length r.pending)) got
              (read_envelope-Consumes unmarshal r) in
          let (es, later) = serve_from-Ends fuel (n + 1) (dispatch s c msg) rest (omega arith) in
          elim (Bool-cases (turn n).cancelled) [
            | inl gone ↦ ([], rw (fine, got, gone, serve_from) refl)
            | inr alive ↦ (msg ∷ es, rw (fine, got, alive, serve_from) later)
          ]
    ]
  ]

  -- The loop of a connection comes to its end for whatever bytes the client sends, however the
  -- connection ends and is interrupted; at its end it has dispatched some envelopes, one after the
  -- other, and shut the connection.
  pub serve_conn_ends :
      (id remote_addr : Text) (r : Reader)
      → (es : List ClientEnvelope) × (serve_conn s unmarshal turn id remote_addr r
          ≡ some (shut (dispatch_all s (open_conn id remote_addr) es)))
  unfolding serve_conn
  serve_conn_ends id remote_addr r =
      serve_from-Ends (suc (length r.pending)) 0 (open_conn id remote_addr) r (omega arith)

module _ (s : Services) (marshal : ClientEnvelope → Option (List ℕ))
    (unmarshal : List ℕ → Option ClientEnvelope) (turn : ℕ → Turn) where
  -- Nothing interrupts the loop.
  abbrev pub IsCalm : Type 0
  IsCalm = (n : ℕ) → ((turn n).deadline_fails ≡ false) × ((turn n).cancelled ≡ false)

  serve_from-frames_of :
      (fuel n : ℕ) (c : Conn) (msgs : List ClientEnvelope)
      (ws : All (IsWritable marshal unmarshal) msgs)
      → IsCalm
      → length (frames_of marshal unmarshal msgs ws) < fuel
      → serve_from s unmarshal turn fuel n c
          (record { pending = frames_of marshal unmarshal msgs ws; ending = closed })
        ≡ some (shut (dispatch_all s c msgs))
  unfolding serve_from
  serve_from-frames_of zero n c msgs ws calm h = elim h [ ]
  serve_from-frames_of (suc fuel) n c [] ws calm h =
      rw ((calm n).0, read_envelope_at_end unmarshal, serve_from) refl
  serve_from-frames_of (suc fuel) n c (msg ∷ msgs) (w, ws) calm h =
      let got =
        (write_envelope-frame marshal unmarshal msg [] (frames_of marshal unmarshal msgs ws) w).1 in
      let less : length (frames_of marshal unmarshal msgs ws) + 4
          ≤ length (frames_of marshal unmarshal (msg ∷ msgs) (w, ws)) =
        subst (Consumes unmarshal _) got (read_envelope-Consumes unmarshal _) in
      rw ((calm n).0, got, (calm n).1, serve_from)
        (serve_from-frames_of fuel (n + 1) (dispatch s c msg) msgs ws calm (omega arith))

  -- What a client writes is what the gateway handles: the envelopes that a client writes one after the
  -- other with WriteEnvelope and then closes are dispatched by the read loop whole, in this order, each
  -- once, and the connection is shut after the last, if nothing interrupts the loop.
  pub serve_conn-write_each :
      (id remote_addr : Text) (msgs : List ClientEnvelope)
      → All (IsWritable marshal unmarshal) msgs
      → IsCalm
      → serve_conn s unmarshal turn id remote_addr
          (record { pending = write_each marshal msgs []; ending = closed })
        ≡ some (shut (dispatch_all s (open_conn id remote_addr) msgs))
  unfolding serve_conn
  serve_conn-write_each id remote_addr msgs ws calm =
      ap
        (λ bytes.
          serve_conn s unmarshal turn id remote_addr (record { pending = bytes; ending = closed }))
        (write_each-frames_of marshal unmarshal msgs [] ws)
      ∙ serve_from-frames_of (suc (length (frames_of marshal unmarshal msgs ws))) 0
          (open_conn id remote_addr) msgs ws calm (omega arith)
