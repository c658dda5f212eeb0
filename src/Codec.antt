-- ===== src/Codec.antt =====
-- internal/codec/frame.go: the length-prefixed framing of the wire. Bytes are numbers below 256.
-- A connection that is read is what its peer has sent, and how it ends; io.ReadFull and
-- binary.BigEndian are modelled after their documentation.
pub mod Roundtrip
pub mod Errors
pub mod Envelope
pub mod Progress
pub mod Sequence
mod Tests
use dify_game_gateway.Base.{
  ℕ, ◌+◌, ◌*◌, ◌/◌, ◌%◌, ◌^◌, Bool, Option, none, some, List, [], ◌∷◌, ◌++◌, ltb, leb, ◌==◌,
  if◌then◌else◌, length, take, drop,
}

abbrev pub max_frame_size : ℕ
max_frame_size = 4 * 2 ^ 20

abbrev pub length_prefix_size : ℕ
length_prefix_size = 4

pub data CodecError : Type 0 where
  frame_too_large : ℕ → CodecError
  eof : CodecError
  unexpected_eof : CodecError
  read_failed : CodecError
  write_failed : CodecError

pub data Result {ℓ} (A : Type ℓ) : Type ℓ where
  ok : A → Result A
  err : CodecError → Result A

-- How a connection ends for its reader: the peer closed it, or reading fails (a timeout, a reset).
pub data Ending : Type 0 where
  closed : Ending
  broken : Ending

pub record Reader : Type 0 where
  pub pending : List ℕ
  pub ending : Ending

-- How a writer takes a buffer: whole, or only its first bytes before an error.
pub data Writing : Type 0 where
  accepted : Writing
  broke_after : ℕ → Writing

-- binary.BigEndian.PutUint32
pub put_uint32 : ℕ → List ℕ
put_uint32 n = n / 2 ^ 24 % 256 ∷ n / 2 ^ 16 % 256 ∷ n / 2 ^ 8 % 256 ∷ n % 256 ∷ []

-- binary.BigEndian.Uint32, of the four bytes of a header.
pub uint32 : List ℕ → ℕ
uint32 (a ∷ b ∷ c ∷ d ∷ rest) = a * 2 ^ 24 + b * 2 ^ 16 + c * 2 ^ 8 + d
uint32 _ = 0

-- The error of an io.ReadFull that got some, but not all bytes, and of one that got none.
pub short_read : Bool → Ending → CodecError
short_read none_read broken = read_failed
short_read none_read closed = if none_read then eof else unexpected_eof

pub is_none_read : List ℕ → Bool
is_none_read pending = length pending == 0

-- io.ReadFull(r, buf) with len(buf) = n.
pub read_full : ℕ → Reader → Result (List ℕ × Reader)
read_full n r =
    if leb n (length r.pending)
    then ok (take n r.pending, record r { pending = drop n r.pending })
    else err (short_read (is_none_read r.pending) r.ending)

-- The whole buffer that WriteFrame hands to the writer.
pub frame : List ℕ → List ℕ
frame payload = put_uint32 (length payload % 2 ^ 32) ++ payload

-- w.Write(buf), on what the writer has sent so far.
pub write : Writing → List ℕ → List ℕ → List ℕ × Option CodecError
write accepted buf sent = (sent ++ buf, none)
write (broke_after k) buf sent = (sent ++ take k buf, some write_failed)

pub write_frame : Writing → List ℕ → List ℕ → List ℕ × Option CodecError
write_frame w payload sent =
    if ltb max_frame_size (length payload)
    then (sent, some (frame_too_large (length payload)))
    else write w (frame payload) sent

-- A body that ends before its first byte is truncated all the same.
pub body_error : CodecError → CodecError
body_error eof = unexpected_eof
body_error e = e

pub read_body : Result (List ℕ × Reader) → Result (List ℕ × Reader)
read_body (ok p) = ok p
read_body (err e) = err (body_error e)

-- What ReadFrame does with the length that the header declares.
pub read_payload : ℕ → Reader → Result (List ℕ × Reader)
read_payload n r =
    if ltb max_frame_size n
    then err (frame_too_large n)
    else if n == 0
    then ok ([], r)
    else read_body (read_full n r)

pub after_header : Result (List ℕ × Reader) → Result (List ℕ × Reader)
after_header (err e) = err e
after_header (ok (header, r)) = read_payload (uint32 header) r

pub read_frame : Reader → Result (List ℕ × Reader)
read_frame r = after_header (read_full length_prefix_size r)
