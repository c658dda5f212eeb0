-- ===== src/Moderation.antt =====
-- internal/moderation/moderation.go: the policies, the moderators, and the filter that holds streamed
-- output back until it is a complete segment. A text is its list of runes, so an index counts runes
-- where the code counts bytes; `utf8_length` stands where the code compares a number of bytes.
pub mod Conservation
pub mod Search
pub mod Buffer
pub mod Detection
mod Tests
use mathlib.Core.Option
use dify_game_gateway.Base.{
  zero, suc, [], ◌∷◌, none, some, true, false, Option, text, Bool, List, ℕ, utf8_length,
  if◌then◌else◌, ◌==◌, ◌||◌, is_empty, Text, leb, ◌++◌, map, ltb, ◌&&◌, take, trim_space, length,
  drop, ◌-◌,
}

-- The Moderator interface: whether a text is allowed, and what to show in place of it if not.
pub record Moderator : Type 0 where
  pub check_input : Text → Bool × Text
  pub check_output : Text → Bool × Text

unfoldable pub has_prefix : Text → Text → Bool
has_prefix [] s = true
has_prefix (c ∷ w) [] = false
has_prefix (c ∷ w) (d ∷ s) = (c == d) && has_prefix w s

-- strings.Contains(s, w)
unfoldable pub contains : Text → Text → Bool
contains w [] = is_empty w
contains w (c ∷ s) = has_prefix w (c ∷ s) || contains w s

pub record KeywordPolicy : Type 0 where
  pub banned : List Text

-- `lower` is unicode.ToLower, the table that strings.ToLower applies to each rune.
module _ (lower : ℕ → ℕ) where
  unfoldable pub normalize_words : List Text → List Text
  normalize_words [] = []
  normalize_words (w ∷ ws) =
      let normal = map lower (trim_space w) in
      let rest = normalize_words ws in if is_empty normal then rest else normal ∷ rest

  unfoldable pub new_keyword_policy : List Text → KeywordPolicy
  unfolding normalize_words
  new_keyword_policy words = record { banned = normalize_words words }

  -- The loop of Allowed, over the lowered text.
  unfoldable pub free_of : List Text → Text → Bool
  free_of [] lowered = true
  free_of (w ∷ ws) lowered =
      let rest = free_of ws lowered in if contains w lowered then false else rest

  unfoldable pub allowed : KeywordPolicy → Text → Bool
  unfolding free_of contains has_prefix
  allowed p s = free_of p.banned (map lower s)

pub record PolicyModerator : Type 0 where
  pub policy : Text → Bool
  pub input_fallback : Text
  pub output_fallback : Text

abbrev pub default_input_fallback : Text
default_input_fallback = text "抱歉，我无法回应这个请求。"

abbrev pub default_output_fallback : Text
default_output_fallback = text "（这段回复已被内容审核拦截。）"

unfoldable pub new_policy_moderator : (Text → Bool) → PolicyModerator
new_policy_moderator policy = record {
  policy = policy;
  input_fallback = default_input_fallback;
  output_fallback = default_output_fallback;
}

unfoldable pub with_fallbacks : PolicyModerator → Text → Text → PolicyModerator
with_fallbacks m input output = record m { input_fallback = input; output_fallback = output }

unfoldable pub check_input : PolicyModerator → Text → Bool × Text
check_input m s = if m.policy s then (true, []) else (false, m.input_fallback)

unfoldable pub check_output : PolicyModerator → Text → Bool × Text
check_output m s = if m.policy s then (true, []) else (false, m.output_fallback)

unfoldable pub moderator_of : PolicyModerator → Moderator
unfolding check_input check_output
moderator_of m = record { check_input = check_input m; check_output = check_output m }

-- AllowAll.
unfoldable pub allow_all : Moderator
allow_all = record { check_input = λ _. (true, []); check_output = λ _. (true, []) }

-- One of 。！？.!? and newline.
unfoldable pub is_terminator : ℕ → Bool
is_terminator c =
    c == 0x3002 || c == 0xff01 || c == 0xff1f || c == b'.' || c == b'!' || c == b'?' || c == 10

abbrev pub default_max_segment_bytes : ℕ
default_max_segment_bytes = 512

abbrev pub default_overlap_runes : ℕ
default_overlap_runes = 32

pub record OutputFilter : Type 0 where
  pub mod_ : Moderator
  pub buf : Text
  pub max_segment_bytes : ℕ
  pub overlap_runes : ℕ
  pub overlap : Text
  pub blocked : Bool

unfoldable pub new_output_filter : Moderator → OutputFilter
new_output_filter m = record {
  mod_ = m;
  buf = [];
  max_segment_bytes = default_max_segment_bytes;
  overlap_runes = default_overlap_runes;
  overlap = [];
  blocked = false;
}

-- strings.LastIndexAny(s, chars), for the set that `member` decides.
unfoldable pub last_index_any : (ℕ → Bool) → Text → Option ℕ
last_index_any member [] = none
last_index_any member (c ∷ s) = elim (last_index_any member s) [
  | some i ↦ some (suc i)
  | none ↦ if member c then some 0 else none
]

unfoldable pub cut_at_last_terminator : Text → Option ℕ
cut_at_last_terminator s = Option.map suc (last_index_any is_terminator s)

pub last_runes : Text → ℕ → Text
last_runes s n =
    if n == 0 || is_empty s then [] else if leb (length s) n then s else drop (length s - n) s

abbrev pub is_blank : ℕ → Bool
is_blank c = c == 0x20 || c == 9

pub split_at : Text → Option ℕ → Text × Text
split_at s none = (s, [])
split_at s (some i) =
    if ltb 0 i && ltb i (length s - 1) then (take (suc i) s, drop (suc i) s) else (s, [])

pub split_keeping_last_token : Text → Text × Text
split_keeping_last_token s = split_at s (last_index_any is_blank s)

-- What Push and Flush return.
pub record Verdict : Type 0 where
  pub emit : Text
  pub blocked : Bool
  pub fallback : Text

abbrev pub nothing : Verdict
nothing = record { emit = []; blocked = false; fallback = [] }

-- The segment to moderate now and the text to keep, if it is time to moderate.
unfoldable pub segment_of : OutputFilter → Option ℕ → Option (Text × Text)
segment_of f (some cut) = some (take cut f.buf, drop cut f.buf)
segment_of f none =
    if leb f.max_segment_bytes (utf8_length f.buf)
    then some (split_keeping_last_token f.buf)
    else none

unfoldable pub select : OutputFilter → Bool → Option (Text × Text)
select f true = some (f.buf, [])
select f false = segment_of f (cut_at_last_terminator f.buf)

-- The moderation of a segment, with the answer of CheckOutput.
unfoldable pub moderate : OutputFilter → Text → Text → Bool × Text → Verdict × OutputFilter
moderate f segment remainder (false, fb) = (
  record { emit = []; blocked = true; fallback = fb },
  record f { blocked = true; buf = []; overlap = [] },
)
moderate f segment remainder (true, fb) = (
  record { emit = segment; blocked = false; fallback = [] },
  record f { overlap = last_runes (f.overlap ++ segment) f.overlap_runes; buf = remainder },
)

unfoldable pub drain_selected : OutputFilter → Option (Text × Text) → Verdict × OutputFilter
drain_selected f none = (nothing, f)
drain_selected f (some (segment, remainder)) =
    moderate f segment remainder (f.mod_.check_output (f.overlap ++ segment))

unfoldable pub drain : OutputFilter → Bool → Verdict × OutputFilter
drain f final = if is_empty f.buf then (nothing, f) else drain_selected f (select f final)

abbrev pub latched : Verdict
latched = record { emit = []; blocked = true; fallback = [] }

unfoldable pub push : OutputFilter → Text → Verdict × OutputFilter
push f delta = if f.blocked then (latched, f) else drain (record f { buf = f.buf ++ delta }) false

unfoldable pub flush : OutputFilter → Verdict × OutputFilter
flush f = if f.blocked then (latched, f) else drain f true
