-- ===== src/Codec/Errors.antt =====
-- internal/codec/frame.go: what the framing refuses.
use dify_game_gateway.Base.{
  ℕ, zero, suc, ◌≤◌, ◌<◌, ◌≡◌, refl, ap, some, List, [], ◌∷◌, ◌++◌, arith, length, take, ◌∙◌, ◌^◌,
  ◌%◌,
}
use dify_game_gateway.Codec.{
  max_frame_size, length_prefix_size, CodecError, err, eof, unexpected_eof, frame_too_large, closed,
  Ending, Writing, put_uint32, read_full, frame, write_frame, read_payload, read_body, body_error,
  after_header, read_frame, short_read, is_none_read,
}
use dify_game_gateway.Codec.Roundtrip.{read_full-put_uint32, after_header-put_uint32}

-- An oversized payload is refused by the writer, and not a byte of it is sent.
pub write_frame_oversized :
    (w : Writing) (payload sent : List ℕ)
    → max_frame_size < length payload
    → write_frame w payload sent ≡ (sent, some (frame_too_large (length payload)))
unfolding write_frame
write_frame_oversized w payload sent h = ground arith

-- A header that declares more than the limit is refused whatever follows it, also where nothing
-- does: the body is not read.
pub read_frame_oversized :
    (n : ℕ) (rest : List ℕ) (e : Ending)
    → max_frame_size < n
    → n < 2 ^ 32
    → read_frame (record { pending = put_uint32 n ++ rest; ending = e }) ≡ err (frame_too_large n)
unfolding read_frame read_payload
read_frame_oversized n rest e big small =
    rw (read_full-put_uint32 n rest e) (after_header-put_uint32 n _ small ∙ ground arith)

-- What a reader makes of a connection that the peer closed after k bytes of a frame.
abbrev pub truncation : ℕ → CodecError
truncation zero = eof
truncation (suc k) = unexpected_eof

read_full_short :
    (n : ℕ) (xs : List ℕ)
    → length xs < n
    → read_full n (record { pending = xs; ending = closed }) ≡ err (truncation (length xs))
unfolding read_full short_read is_none_read
read_full_short n [] h = ground arith
read_full_short n (x ∷ xs) h = ground arith

read_payload_short :
    (n : ℕ) (xs : List ℕ)
    → length xs < n
    → n ≤ max_frame_size
    → read_payload n (record { pending = xs; ending = closed }) ≡ err unexpected_eof
unfolding read_payload read_body body_error
read_payload_short n [] h short = ground (arith, read_full_short n [])
read_payload_short n (x ∷ xs) h short = ground (arith, read_full_short n (x ∷ xs))

length-take_le : (xs : List ℕ) (k : ℕ) → k ≤ length xs → length (take k xs) ≡ k
length-take_le xs zero h = refl
length-take_le [] (suc k) h = elim h [ ]
length-take_le (x ∷ xs) (suc k) h = ap suc (length-take_le xs k (omega arith))

-- The connection closed within the header.
read_frame_in_header :
    (xs : List ℕ)
    → length xs < 4
    → read_frame (record { pending = xs; ending = closed }) ≡ err (truncation (length xs))
unfolding read_frame after_header
read_frame_in_header xs h = rw (read_full_short length_prefix_size xs h)

-- The connection closed within the body.
read_frame_in_body :
    (n : ℕ) (xs : List ℕ)
    → length xs < n
    → n ≤ max_frame_size
    → read_frame (record { pending = put_uint32 n ++ xs; ending = closed }) ≡ err unexpected_eof
unfolding read_frame
read_frame_in_body n xs h short =
    rw (read_full-put_uint32 n xs closed)
      (after_header-put_uint32 n _ (omega arith) ∙ read_payload_short n xs h short)

-- A frame whose peer closed the connection in its middle is never read as a frame: the error is the
-- clean end of stream if not a byte of it came, and the truncation error in all other cases, the one
-- in which the header came whole and the body not at all included.
pub read_frame_truncated :
    (payload : List ℕ) (k : ℕ)
    → length payload ≤ max_frame_size
    → k < length (frame payload)
    → read_frame (record { pending = take k (frame payload); ending = closed }) ≡ err (truncation k)
unfolding frame put_uint32
read_frame_truncated payload zero h short = read_frame_in_header [] (omega arith)
read_frame_truncated payload (suc zero) h short = read_frame_in_header (_ ∷ []) (omega arith)
read_frame_truncated payload (suc (suc zero)) h short =
    read_frame_in_header (_ ∷ _ ∷ []) (omega arith)
read_frame_truncated payload (suc (suc (suc zero))) h short =
    read_frame_in_header (_ ∷ _ ∷ _ ∷ []) (omega arith)
read_frame_truncated payload (suc (suc (suc (suc j)))) h short =
    let small : length payload % 2 ^ 32 ≡ length payload = omega arith in
    let taken : length (take j payload) ≡ j = length-take_le payload j (omega arith) in
    read_frame_in_body (length payload % 2 ^ 32) (take j payload) (omega arith) (omega arith)
