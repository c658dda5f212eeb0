-- ===== src/Codec/Sequence.antt =====
-- internal/codec/envelope.go: envelopes that are written one after the other.
use dify_game_gateway.Base.{
  ℕ, ◌≤◌, Option, some, List, [], ◌∷◌, ◌++◌, ◌≡◌, refl, sym, ap, ◌∙◌, ◌⊎◌, inl, inr, length, All,
  arith, append_assoc, append-nil,
}
use dify_game_gateway.Codec.{Reader, closed, max_frame_size, frame, accepted}
use dify_game_gateway.Codec.Envelope.{
  ReadResult, EnvelopeError, envelope, fault, read_envelope, write_envelope,
  read_envelope-write_envelope,
}

pub ReadResult-cases {ℓ} :
    {E : Type ℓ} (o : ReadResult E)
    → ((msg : E) × (r : Reader) × (o ≡ envelope msg r)) ⊎ ((e : EnvelopeError) × (o ≡ fault e))
ReadResult-cases (envelope msg r) = inl (msg, r, refl)
ReadResult-cases (fault e) = inr (e, refl)

module _ {ℓ} {E : Type ℓ} (marshal : E → Option (List ℕ)) where
  -- The bytes of a writer that writes envelopes one after the other.
  abbrev pub write_each : List E → List ℕ → List ℕ
  write_each [] sent = sent
  write_each (msg ∷ msgs) sent = write_each msgs (write_envelope marshal accepted msg sent).0

module _ {ℓ} {E : Type ℓ} (marshal : E → Option (List ℕ)) (unmarshal : List ℕ → Option E) where
  -- Protobuf writes the envelope, within the limit of a frame, and reads it back.
  abbrev pub IsWritable : E → Type ℓ
  IsWritable msg =
      (payload : List ℕ) × (marshal msg ≡ some payload)
      × (unmarshal payload ≡ some msg)
      × (length payload ≤ max_frame_size)

  pub write_envelope-frame :
      (msg : E) (sent rest : List ℕ) (w : IsWritable msg)
      → ((write_envelope marshal accepted msg sent).0 ≡ sent ++ frame w.0)
        × (read_envelope unmarshal (record { pending = frame w.0 ++ rest; ending = closed })
            ≡ envelope msg (record { pending = rest; ending = closed }))
  write_envelope-frame msg sent rest (payload, writes, reads, fits) =
      elim (read_envelope-write_envelope marshal unmarshal msg payload sent rest closed writes
        reads) [ inl (_, _, same, back) ↦ (same, back) | inr (big, _, _) ↦ absurd (omega arith) ]

  abbrev pub frames_of : (msgs : List E) → All IsWritable msgs → List ℕ
  frames_of [] _ = []
  frames_of (msg ∷ msgs) (w, ws) = frame w.0 ++ frames_of msgs ws

  pub write_each-frames_of :
      (msgs : List E) (sent : List ℕ) (ws : All IsWritable msgs)
      → write_each marshal msgs sent ≡ sent ++ frames_of msgs ws
  write_each-frames_of [] sent ws = sym (append-nil sent)
  write_each-frames_of (msg ∷ msgs) sent (w, ws) =
      ap (write_each marshal msgs) (write_envelope-frame msg sent [] w).0
      ∙ write_each-frames_of msgs (sent ++ frame w.0) ws
      ∙ append_assoc sent (frame w.0) _
