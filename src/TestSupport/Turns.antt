-- ===== src/TestSupport/Turns.antt =====
-- internal/testsupport/testsupport.go, ReadTurn: a turn comes to its end, and what it makes of the frames of the gateway.
use dify_game_gateway.Base.{
  ap, ◌∙◌, [], ◌∷◌, All, if◌then◌else◌, ℕ, zero, suc, ◌+◌, ◌≤◌, ◌<◌, some, false, List, Option,
  length, ◌≡◌, refl, subst, arith, inl, inr, Bool-cases, ◌∷◌, All, [],
}
use dify_game_gateway.Wire.{ServerEnvelope}
use dify_game_gateway.Codec.{Reader, closed}
use dify_game_gateway.Codec.Envelope.{read_envelope}
use dify_game_gateway.Codec.Progress.{read_envelope_at_end, Consumes, read_envelope-Consumes}
use dify_game_gateway.Codec.Sequence.{
  ReadResult-cases, IsWritable, frames_of, write_each, write_envelope-frame, write_each-frames_of,
}
use dify_game_gateway.TestSupport.{Turn, started, on_envelope, read_turn_from, read_turn}

module _ (unmarshal : List ℕ → Option ServerEnvelope) (since : ℕ → ℕ) where
  abbrev Ends : Option Turn → Type 0
  Ends o = (t : Turn) × (o ≡ some t)

  read_turn_from-Ends :
      (fuel n : ℕ) (t : Turn) (r : Reader)
      → length r.pending < fuel
      → Ends (read_turn_from unmarshal since fuel n t r)
  unfolding read_turn_from
  read_turn_from-Ends zero n t r h = elim h [ ]
  read_turn_from-Ends (suc fuel) n t r h = elim (ReadResult-cases (read_envelope unmarshal r)) [
    | inr (e, over) ↦ (record t { ok = false; first_token = 0 }, rw (over, read_turn_from) refl)
    | inl (msg, rest, got) ↦
        let less : length rest.pending + 4 ≤ length r.pending =
          subst (Consumes unmarshal (length r.pending)) got (read_envelope-Consumes unmarshal r) in
        let (t', over) = on_envelope t (since n) msg in
        let later = read_turn_from-Ends fuel (suc n) t' rest (omega arith) in
        elim (Bool-cases over) [
          | inl ends ↦ (t', rw (got, read_turn_from, ends) refl)
          | inr on ↦ rw (got, read_turn_from, on) later
        ]
  ]

  -- A turn ends for whatever bytes the gateway sends and however the connection ends.
  pub read_turn_ends : (r : Reader) → (t : Turn) × (read_turn unmarshal since r ≡ some t)
  unfolding read_turn
  read_turn_ends r = read_turn_from-Ends (suc (length r.pending)) 0 started r (omega arith)

-- What a turn makes of a row of envelopes, after which the connection ends.
module _ (since : ℕ → ℕ) where
  abbrev pub turn_of : ℕ → Turn → List ServerEnvelope → Turn
  turn_of n t [] = record t { ok = false; first_token = 0 }
  turn_of n t (msg ∷ msgs) =
      let (t', over) = on_envelope t (since n) msg in
      let later = turn_of (suc n) t' msgs in if over then t' else later

module _ (marshal : ServerEnvelope → Option (List ℕ)) (unmarshal : List ℕ → Option ServerEnvelope)
    (since : ℕ → ℕ) where
  read_turn_from-frames_of :
      (fuel n : ℕ) (t : Turn) (msgs : List ServerEnvelope)
      (ws : All (IsWritable marshal unmarshal) msgs)
      → length (frames_of marshal unmarshal msgs ws) < fuel
      → read_turn_from unmarshal since fuel n t
          (record { pending = frames_of marshal unmarshal msgs ws; ending = closed })
        ≡ some (turn_of since n t msgs)
  unfolding read_turn_from
  read_turn_from-frames_of zero n t msgs ws h = elim h [ ]
  read_turn_from-frames_of (suc fuel) n t [] ws h =
      rw (read_envelope_at_end unmarshal, read_turn_from) refl
  read_turn_from-frames_of (suc fuel) n t (msg ∷ msgs) (w, ws) h =
      let got =
        (write_envelope-frame marshal unmarshal msg [] (frames_of marshal unmarshal msgs ws) w).1 in
      let less : length (frames_of marshal unmarshal msgs ws) + 4
          ≤ length (frames_of marshal unmarshal (msg ∷ msgs) (w, ws)) =
        subst (Consumes unmarshal _) got (read_envelope-Consumes unmarshal _) in
      let (t', over) = on_envelope t (since n) msg in
      let later = read_turn_from-frames_of fuel (suc n) t' msgs ws (omega arith) in
      elim (Bool-cases over) [
        | inl ends ↦ rw (got, read_turn_from, turn_of, ends) refl
        | inr on ↦ rw (got, read_turn_from, turn_of, on) later
      ]

  -- What the gateway writes is what a turn reads.
  pub read_turn-write_each :
      (msgs : List ServerEnvelope)
      → All (IsWritable marshal unmarshal) msgs
      → read_turn unmarshal since (record { pending = write_each marshal msgs []; ending = closed })
        ≡ some (turn_of since 0 started msgs)
  unfolding read_turn
  read_turn-write_each msgs ws =
      ap (λ bytes. read_turn unmarshal since (record { pending = bytes; ending = closed }))
        (write_each-frames_of marshal unmarshal msgs [] ws)
      ∙ read_turn_from-frames_of (suc (length (frames_of marshal unmarshal msgs ws))) 0 started msgs
          ws (omega arith)
