-- ===== src/Moderation/Tests.antt =====
-- internal/moderation/moderation.go: the filter on small inputs.
use dify_game_gateway.Base.{
  ℕ, Text, text, List, [], ◌∷◌, ◌++◌, ◌≡◌, refl, arith, false, ◌+◌, if◌then◌else◌, ◌&&◌, leb, map,
  trim_space, utf8_length, none, ◌≤◌,
}
use dify_game_gateway.Moderation.{
  contains, new_keyword_policy, new_output_filter, last_index_any, is_terminator,
}
use dify_game_gateway.Moderation.Conservation.{
  filter_stream, push_all, concat, filter_stream-IsPrefix,
}
use dify_game_gateway.Moderation.Detection.{keyword_moderator, filter_stream-lacks}
use dify_game_gateway.Moderation.Buffer.{push_all-buffer}
use mathlib.Core.List.{Memᴰ}

-- The letters of ASCII.
abbrev ascii_lower : ℕ → ℕ
ascii_lower c = if leb b'A' c && leb c b'Z' then c + 32 else c

abbrev words : List Text
words = text " Bad " ∷ text "evil" ∷ []

-- The second banned word is cut by a terminator and by a delta.
abbrev deltas : List Text
deltas = text "Hello. I am e" ∷ text "vi" ∷ text "l! Really." ∷ []

filter_stream-IsPrefix_example :
    (rest : Text) × ((filter_stream (keyword_moderator ascii_lower words) deltas).0 ++ rest
      ≡ concat deltas)
    × ((filter_stream (keyword_moderator ascii_lower words) deltas).1 ≡ false → rest ≡ [])
filter_stream-IsPrefix_example = filter_stream-IsPrefix (keyword_moderator ascii_lower words) deltas

filter_stream-lacks_example :
    contains
      (text "evil")
      (map ascii_lower (filter_stream (keyword_moderator ascii_lower words) deltas).0)
    ≡ false
unfolding new_keyword_policy trim_space
filter_stream-lacks_example =
    filter_stream-lacks ascii_lower words deltas (text "evil") (Memᴰ.tail (Memᴰ.head refl))
      (omega arith)

push_all-buffer_example :
    let held = (push_all (new_output_filter (keyword_moderator ascii_lower words)) deltas).1.buf in
    (last_index_any is_terminator held ≡ none) × (utf8_length held ≤ 511 + 13)
unfolding utf8_length
push_all-buffer_example =
    push_all-buffer (keyword_moderator ascii_lower words) deltas 511 13 (omega arith) (omega arith)
      (omega arith, (omega arith, (omega arith, tt)))
