-- ===== src/Codec/Roundtrip.antt =====
-- internal/codec/frame.go: the reading of what was written.
use dify_game_gateway.Base.{
  ℕ, ◌≤◌, ◌<◌, ◌≡◌, refl, List, [], ◌∷◌, ◌++◌, arith, append_assoc, length, take-length_append,
  drop-length_append, length-append, ◌^◌, ◌%◌, All, ◌∙◌, suc, sym, Option, none, some, append-nil,
  ltb, false, zero,
}
use dify_game_gateway.Codec.{
  CodecError, length_prefix_size, is_none_read, short_read, write, max_frame_size, ok, Ending,
  put_uint32, uint32, read_full, frame, read_payload, read_body, read_frame, Reader, after_header,
  write_frame, accepted, closed, err, eof,
}

uint32-put_uint32 : (n : ℕ) → n < 2 ^ 32 → uint32 (put_uint32 n) ≡ n
unfolding uint32 put_uint32
uint32-put_uint32 n h = omega arith

pub read_full-append :
    (xs rest : List ℕ) (e : Ending)
    → read_full (length xs) (record { pending = xs ++ rest; ending = e })
      ≡ ok (xs, record { pending = rest; ending = e })
unfolding read_full
read_full-append xs rest e =
    ground (arith, length-append xs rest, take-length_append xs rest, drop-length_append xs rest)

pub read_payload-append :
    (xs rest : List ℕ) (e : Ending)
    → length xs ≤ max_frame_size
    → read_payload (length xs) (record { pending = xs ++ rest; ending = e })
      ≡ ok (xs, record { pending = rest; ending = e })
unfolding read_payload read_body
read_payload-append [] rest e h = refl
read_payload-append (x ∷ xs) rest e h = ground (arith, read_full-append (x ∷ xs) rest e)

-- The four bytes of the header come first.
pub read_full-put_uint32 :
    (n : ℕ) (rest : List ℕ) (e : Ending)
    → read_full length_prefix_size (record { pending = put_uint32 n ++ rest; ending = e })
      ≡ ok (put_uint32 n, record { pending = rest; ending = e })
unfolding put_uint32
read_full-put_uint32 n rest e = read_full-append _ rest e

pub after_header-put_uint32 :
    (n : ℕ) (r : Reader) → n < 2 ^ 32 → after_header (ok (put_uint32 n, r)) ≡ read_payload n r
unfolding after_header
after_header-put_uint32 n r h = rw (uint32-put_uint32 n h)

-- A frame that stands at the front of what a peer sent is read back whole, and what follows it is
-- left for the next read.
pub read_frame-frame :
    (payload rest : List ℕ) (e : Ending)
    → length payload ≤ max_frame_size
    → read_frame (record { pending = frame payload ++ rest; ending = e })
      ≡ ok (payload, record { pending = rest; ending = e })
unfolding read_frame frame
read_frame-frame payload rest e h =
    let n : ℕ = length payload in
    let small : n % 2 ^ 32 ≡ n = omega arith in
    rw (small, append_assoc (put_uint32 n) payload rest, read_full-put_uint32 n (payload ++ rest) e)
      (after_header-put_uint32 n _ (omega arith) ∙ read_payload-append payload rest e h)

-- The bytes that a connection carries after a row of successful WriteFrame calls.
abbrev pub write_all : List (List ℕ) → List ℕ → List ℕ
write_all [] sent = sent
write_all (p ∷ ps) sent = write_all ps (write_frame accepted p sent).0

-- ReadFrame again and again, as often as the fuel says, up to the first error.
abbrev pub read_all : ℕ → Reader → List (List ℕ) × Option CodecError
read_all zero r = ([], none)
read_all (suc fuel) r = elim (read_frame r) [
  | ok (payload, r') ↦ let (ps, e) = read_all fuel r' in (payload ∷ ps, e)
  | err e ↦ ([], some e)
]

abbrev pub Fits : List ℕ → Type 0
Fits p = length p ≤ max_frame_size

abbrev pub frames : List (List ℕ) → List ℕ
frames [] = []
frames (p ∷ ps) = frame p ++ frames ps

write_all-frames :
    (ps : List (List ℕ)) (sent : List ℕ) → All Fits ps → write_all ps sent ≡ sent ++ frames ps
unfolding write_frame write
write_all-frames [] sent h = sym (append-nil sent)
write_all-frames (p ∷ ps) sent (h, hs) =
    rw (leb_false p h) (write_all-frames ps (sent ++ frame p) hs ∙ append_assoc sent (frame p) _)
  where
    leb_false : (p : List ℕ) → length p ≤ max_frame_size → ltb max_frame_size (length p) ≡ false
    leb_false p h = ground arith

pub read_frame_at_end : read_frame (record { pending = []; ending = closed }) ≡ err eof
unfolding read_frame read_full after_header short_read is_none_read
read_frame_at_end = refl

read_all-frames :
    (ps : List (List ℕ))
    → All Fits ps
    → read_all (suc (length ps)) (record { pending = frames ps; ending = closed }) ≡ (ps, some eof)
read_all-frames [] h = rw (read_frame_at_end, read_all)
read_all-frames (p ∷ ps) (h, hs) =
    rw (read_frame-frame p (frames ps) closed h, read_all) (rw (read_all-frames ps hs))

-- Every row of payloads that fit, written by WriteFrame on one connection and read by ReadFrame
-- until the first error, comes back whole and in order, and the error is the clean end of stream.
pub read_all-write_all :
    (ps : List (List ℕ))
    → All Fits ps
    → read_all (suc (length ps)) (record { pending = write_all ps []; ending = closed })
      ≡ (ps, some eof)
read_all-write_all ps h = rw (write_all-frames ps [] h) (read_all-frames ps h)
