-- ===== src/Codec/Envelope.antt =====
-- internal/codec/envelope.go: an envelope in one frame. The protobuf library is a parameter:
-- `marshal` gives bytes or fails, `unmarshal` reads them back.
use dify_game_gateway.Base.{
  ℕ, List, ◌++◌, Option, none, some, ◌≡◌, ◌≤◌, ◌<◌, ◌⊎◌, inl, inr, dec_le, arith, length,
}
use dify_game_gateway.Codec.{
  max_frame_size, CodecError, Result, ok, err, Reader, Ending, Writing, accepted, write, frame,
  write_frame, read_frame, frame_too_large,
}
use dify_game_gateway.Codec.Roundtrip.{read_frame-frame}

-- What the writing and the reading of an envelope fail with.
pub data EnvelopeError : Type 0 where
  marshal_failed : EnvelopeError
  unmarshal_failed : EnvelopeError
  frame_failed : CodecError → EnvelopeError

pub data ReadResult {ℓ} (A : Type ℓ) : Type ℓ where
  envelope : A → Reader → ReadResult A
  fault : EnvelopeError → ReadResult A

module _ {ℓ} {E : Type ℓ} (marshal : E → Option (List ℕ)) where
  unfoldable pub frame_error : Option CodecError → Option EnvelopeError
  frame_error none = none
  frame_error (some e) = some (frame_failed e)

  unfoldable pub write_payload : Writing → List ℕ → Option (List ℕ) → List ℕ × Option EnvelopeError
  write_payload w sent none = (sent, some marshal_failed)
  write_payload w sent (some payload) =
      let (sent', e) = write_frame w payload sent in (sent', frame_error e)

  -- WriteEnvelope, on what the writer has sent so far.
  unfoldable pub write_envelope : Writing → E → List ℕ → List ℕ × Option EnvelopeError
  unfolding write_payload frame_error
  write_envelope w msg sent = write_payload w sent (marshal msg)

module _ {ℓ} {E : Type ℓ} (unmarshal : List ℕ → Option E) where
  unfoldable pub decoded : Reader → Option E → ReadResult E
  decoded r none = fault unmarshal_failed
  decoded r (some msg) = envelope msg r

  unfoldable pub after_frame : Result (List ℕ × Reader) → ReadResult E
  after_frame (err e) = fault (frame_failed e)
  after_frame (ok (payload, r)) = decoded r (unmarshal payload)

  -- ReadClientEnvelope, and ReadServerEnvelope for the other envelope.
  unfoldable pub read_envelope : Reader → ReadResult E
  unfolding after_frame decoded
  read_envelope r = after_frame (read_frame r)

module _ {ℓ} {E : Type ℓ} (marshal : E → Option (List ℕ)) (unmarshal : List ℕ → Option E) where
  -- An envelope that protobuf can write, within the limit of a frame, and read back, is written
  -- without an error behind what was sent before, and its reader gets it back and what follows it
  -- left; one above the limit is refused and nothing of it is sent.
  pub read_envelope-write_envelope :
      (msg : E) (payload sent rest : List ℕ) (e : Ending)
      → marshal msg ≡ some payload
      → unmarshal payload ≡ some msg
      → let (sent', error) = write_envelope marshal accepted msg sent in
        ((length payload ≤ max_frame_size)
          × (error ≡ none)
          × (sent' ≡ sent ++ frame payload)
          × (read_envelope unmarshal (record { pending = frame payload ++ rest; ending = e })
              ≡ envelope msg (record { pending = rest; ending = e })))
        ⊎ ((max_frame_size < length payload)
            × (error ≡ some (frame_failed (frame_too_large (length payload))))
            × (sent' ≡ sent))
  unfolding write_envelope write_payload frame_error read_envelope after_frame decoded write_frame
      write
  read_envelope-write_envelope msg payload sent rest e h k =
      elim (dec_le (length payload) max_frame_size) [
        | yes fits ↦ let back = read_frame-frame payload rest e fits in inl (ground (arith, back))
        | no big ↦ inr (ground arith)
      ]
