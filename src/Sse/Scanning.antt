-- ===== src/Sse/Scanning.antt =====
-- internal/dify/sse.go: the lines that bufio.Scanner gives of the body of a response.
use dify_game_gateway.Base.{
  is_empty-append, is_space, ℕ, [], ◌∷◌, ◌++◌, none, some, false, Text, text, List, ◌≡◌, refl,
  arith, ◌==◌, if◌then◌else◌, ◌&&◌, is_empty, onto_first, Lacks, trim_space, trim_left, utf8_length,
  leb, ◌*◌, Option, some, trim_right, trim_right-append, trim_space_of_IsTrimmed, text_eq,
}
use dify_game_gateway.Pipeline.Errors.{Failure, other}
use dify_game_gateway.Sse.{data_of}
use dify_game_gateway.Moderation.{has_prefix}

-- The lines of a text; a newline at its end starts no line.
unfoldable pub raw_lines : Text → List Text
raw_lines [] = []
raw_lines (c ∷ s) = let rest = raw_lines s in if c == b'\n' then [] ∷ rest else onto_first c rest

-- A line without the carriage return at its end.
unfoldable pub drop_cr : Text → Text
drop_cr [] = []
drop_cr (c ∷ s) = let rest = drop_cr s in if c == b'\r' && is_empty s then [] else c ∷ rest

abbrev pub max_token_size : ℕ
max_token_size = 4 * 1024 * 1024

-- The lines up to the first that does not fit the buffer with its newline, and the error at the end.
unfoldable pub scan_from : List Text → Option Failure → List Text × Option Failure
scan_from [] cause = ([], cause)
scan_from (raw ∷ raws) cause =
    let (lines, e) = scan_from raws cause in
    if leb max_token_size (utf8_length raw) then ([], some other) else (drop_cr raw ∷ lines, e)

-- bufio.Scanner with its buffer, over what is read until its end or the error `cause`.
unfoldable pub scan_lines : Text → Option Failure → List Text × Option Failure
unfolding scan_from raw_lines drop_cr
scan_lines s cause = scan_from (raw_lines s) cause

raw_lines-append : (s t : Text) → Lacks b'\n' s → raw_lines (s ++ b'\n' ∷ t) ≡ s ∷ raw_lines t
unfolding raw_lines
raw_lines-append [] t h = refl
raw_lines-append (c ∷ s) t (ne, h) = rw (ne, raw_lines-append s t h) refl

drop_cr-append : (s : Text) (c : ℕ) → (c == b'\r') ≡ false → drop_cr (s ++ c ∷ []) ≡ s ++ c ∷ []
unfolding drop_cr
drop_cr-append [] c h = rw h refl
drop_cr-append (d ∷ s) c h =
    rw (drop_cr-append s c h) (ground (arith, is_empty-append s (c ∷ []) refl))

-- A line that fits and does not end in a carriage return, and the empty line that follows it.
pub scan_lines-event :
    (s t : Text) (c : ℕ) (cause : Option Failure)
    → (c == b'\r') ≡ false
    → Lacks b'\n' (s ++ c ∷ [])
    → leb max_token_size (utf8_length (s ++ c ∷ [])) ≡ false
    → scan_lines ((s ++ c ∷ []) ++ (b'\n' ∷ b'\n' ∷ t)) cause
      ≡ ((s ++ c ∷ []) ∷ [] ∷ (scan_lines t cause).0, (scan_lines t cause).1)
unfolding scan_lines scan_from raw_lines drop_cr utf8_length
scan_lines-event s t c cause h lacks fits =
    rw (raw_lines-append (s ++ c ∷ []) (b'\n' ∷ t) lacks, scan_from, fits, drop_cr-append s c h)
      refl

-- The text of a JSON object.
abbrev pub braced : Text → Text
braced inner = b'{' ∷ inner ++ b'}' ∷ []

braced_end : (s inner : Text) → trim_right (s ++ braced inner) ≡ s ++ braced inner
unfolding trim_right is_space
braced_end s inner =
    trim_right-append s (braced inner) refl (trim_right-append (b'{' ∷ inner) (b'}' ∷ []) refl refl)

trim_space-line :
    (inner : Text) → trim_space (text "data: " ++ braced inner) ≡ text "data: " ++ braced inner
unfolding trim_left is_space
trim_space-line inner = trim_space_of_IsTrimmed _ (refl, braced_end (text "data: ") inner)

trim_space-object : (inner : Text) → trim_space (b' ' ∷ braced inner) ≡ braced inner
unfolding trim_space trim_left is_space
trim_space-object inner = braced_end [] inner

-- The data of a line that carries an object is the object.
pub data_of-braced : (inner : Text) → data_of (text "data: " ++ braced inner) ≡ some (braced inner)
unfolding data_of text_eq has_prefix
data_of-braced inner = rw (trim_space-line inner, trim_space-object inner) refl

-- An empty line carries nothing.
pub data_of-empty : data_of [] ≡ none
unfolding data_of trim_space has_prefix
data_of-empty = refl
