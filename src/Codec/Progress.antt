-- ===== src/Codec/Progress.antt =====
-- internal/codec: every frame and every envelope that is read leaves fewer bytes to come.
use dify_game_gateway.Base.{
  ℕ, ◌+◌, ◌≤◌, Option, none, some, List, ◌≡◌, refl, [], arith, length, length-drop,
}
use dify_game_gateway.Codec.Roundtrip.{read_frame_at_end}
use dify_game_gateway.Codec.{
  eof, closed, Reader, Result, ok, err, uint32, read_full, read_frame, read_payload, read_body,
  after_header,
}
use dify_game_gateway.Codec.Envelope.{
  ReadResult, envelope, fault, frame_failed, read_envelope, after_frame, decoded,
}

-- What is read leaves at least `gone` bytes fewer than `before`.
abbrev Shorter : ℕ → ℕ → Result (List ℕ × Reader) → Type 0
Shorter gone before (ok (xs, r)) = length r.pending + gone ≤ before
Shorter gone before (err e) = Unit

read_full-Shorter : (n : ℕ) (r : Reader) → Shorter n (length r.pending) (read_full n r)
unfolding read_full
read_full-Shorter n r = ground (arith, length-drop n r.pending)

read_body-Shorter :
    (n before : ℕ) (o : Result (List ℕ × Reader))
    → Shorter n before o
    → Shorter 0 before (read_body o)
unfolding read_body
read_body-Shorter n before (ok (xs, r)) h = omega arith
read_body-Shorter n before (err e) h = tt

read_payload-Shorter : (n : ℕ) (r : Reader) → Shorter 0 (length r.pending) (read_payload n r)
unfolding read_payload
read_payload-Shorter n r =
    ground (arith, read_body-Shorter n (length r.pending) (read_full n r) (read_full-Shorter n r))

Shorter-trans :
    (gone middle before : ℕ) (o : Result (List ℕ × Reader))
    → Shorter 0 middle o
    → middle + gone ≤ before
    → Shorter gone before o
Shorter-trans gone middle before (ok (xs, r)) h k = omega arith
Shorter-trans gone middle before (err e) h k = tt

after_header-Shorter :
    (before : ℕ) (o : Result (List ℕ × Reader))
    → Shorter 4 before o
    → Shorter 4 before (after_header o)
unfolding after_header
after_header-Shorter before (ok (header, r)) h =
    Shorter-trans 4 (length r.pending) before _ (read_payload-Shorter (uint32 header) r) h
after_header-Shorter before (err e) h = tt

read_frame-Shorter : (r : Reader) → Shorter 4 (length r.pending) (read_frame r)
unfolding read_frame
read_frame-Shorter r = after_header-Shorter (length r.pending) _ (read_full-Shorter 4 r)

module _ {ℓ} {E : Type ℓ} (unmarshal : List ℕ → Option E) where
  abbrev pub Consumes : ℕ → ReadResult E → Type 0
  Consumes before (envelope msg r) = length r.pending + 4 ≤ before
  Consumes before (fault e) = Unit

  decoded-Consumes :
      (before : ℕ) (r : Reader) (o : Option E)
      → length r.pending + 4 ≤ before
      → Consumes before (decoded unmarshal r o)
  unfolding decoded
  decoded-Consumes before r none h = tt
  decoded-Consumes before r (some msg) h = h

  after_frame-Consumes :
      (before : ℕ) (o : Result (List ℕ × Reader))
      → Shorter 4 before o
      → Consumes before (after_frame unmarshal o)
  unfolding after_frame
  after_frame-Consumes before (ok (payload, r)) h = decoded-Consumes before r (unmarshal payload) h
  after_frame-Consumes before (err e) h = tt

  pub read_envelope-Consumes :
      (r : Reader) → Consumes (length r.pending) (read_envelope unmarshal r)
  unfolding read_envelope
  read_envelope-Consumes r = after_frame-Consumes (length r.pending) _ (read_frame-Shorter r)

  pub read_envelope_at_end :
      read_envelope unmarshal (record { pending = []; ending = closed }) ≡ fault (frame_failed eof)
  unfolding read_envelope
  read_envelope_at_end = rw (read_frame_at_end, after_frame) refl
