-- ===== src/Config/Keys.antt =====
-- internal/config/config.go, parseAppKeys: what its keys are.
use dify_game_gateway.Base.{
  insert-DistinctKeys, ℕ, [], ◌∷◌, ◌+◌, none, some, false, Text, text, List, Option, ◌≡◌, refl,
  is_empty, trim_space, cut, split_on, insert, All, Bool-cases, inl, inr, arith, IsTrimmed,
  trim_space-IsTrimmed, DistinctKeys, Option-cases, subst,
}
use dify_game_gateway.Config.{Result, ok, err, parse_pairs, parse_app_keys, mapping_of}

-- A name or a key as parseAppKeys keeps it.
abbrev pub IsWord : Text → Type 0
IsWord s = IsTrimmed s × (is_empty s ≡ false)

abbrev pub IsMapping : Text × Text → Type 0
IsMapping (name, key) = IsWord name × IsWord key

mapping_of-IsMapping :
    (o : Option (Text × Text)) (name key : Text)
    → mapping_of o ≡ some (name, key)
    → IsMapping (name, key)
unfolding mapping_of
mapping_of-IsMapping none name key h = cc
mapping_of-IsMapping (some (n, k)) name key h =
    ground (arith, trim_space-IsTrimmed n, trim_space-IsTrimmed k)

insert-IsMapping :
    (name key : Text) (keys : List (Text × Text))
    → IsMapping (name, key)
    → All IsMapping keys
    → All IsMapping (insert name key keys)
unfolding insert
insert-IsMapping name key [] h k = (h, tt)
insert-IsMapping name key ((n, v) ∷ keys) h k = ground (arith, insert-IsMapping name key keys h)

abbrev AllMappings : Result (List (Text × Text)) → Type 0
AllMappings (ok keys) = All IsMapping keys × (is_empty keys ≡ false)
AllMappings (err e) = Unit

parse_pairs-AllMappings :
    (i : ℕ) (keys : List (Text × Text)) (pairs : List Text)
    → All IsMapping keys
    → AllMappings (parse_pairs i keys pairs)
unfolding parse_pairs
parse_pairs-AllMappings i [] [] h = tt
parse_pairs-AllMappings i (k ∷ keys) [] h = (h, refl)
parse_pairs-AllMappings i keys (raw ∷ pairs) h = elim (Bool-cases (is_empty (trim_space raw))) [
  | inl blank ↦ rw blank (parse_pairs-AllMappings (i + 1) keys pairs h)
  | inr fine ↦ elim (Option-cases (mapping_of (cut (text "=") (trim_space raw)))) [
    | inl bad ↦ rw (fine, bad) tt
    | inr ((name, key), good) ↦
        rw (fine, good)
          (parse_pairs-AllMappings (i + 1) (insert name key keys) pairs
            (insert-IsMapping name key keys (mapping_of-IsMapping _ name key good) h))
  ]
]

-- Keys that are read are never empty, nor is any name or key, and none has a space at its end.
pub parse_app_keys-IsMapping :
    (raw : Text) (keys : List (Text × Text))
    → parse_app_keys raw ≡ ok keys
    → All IsMapping keys × (is_empty keys ≡ false)
unfolding parse_app_keys
parse_app_keys-IsMapping raw keys h = elim (Bool-cases (is_empty (trim_space raw))) [
  | inl blank ↦ cc (rw blank at h)
  | inr fine ↦
      subst AllMappings (rw fine at h)
        (parse_pairs-AllMappings 0 [] (split_on b';' (trim_space raw)) tt)
]

abbrev AreDistinct : Result (List (Text × Text)) → Type 0
AreDistinct (ok keys) = DistinctKeys keys
AreDistinct (err e) = Unit

parse_pairs-AreDistinct :
    (i : ℕ) (keys : List (Text × Text)) (pairs : List Text)
    → DistinctKeys keys
    → AreDistinct (parse_pairs i keys pairs)
unfolding parse_pairs
parse_pairs-AreDistinct i [] [] d = tt
parse_pairs-AreDistinct i (k ∷ keys) [] d = d
parse_pairs-AreDistinct i keys (raw ∷ pairs) d = elim (Bool-cases (is_empty (trim_space raw))) [
  | inl blank ↦ rw blank (parse_pairs-AreDistinct (i + 1) keys pairs d)
  | inr fine ↦ elim (Option-cases (mapping_of (cut (text "=") (trim_space raw)))) [
    | inl bad ↦ rw (fine, bad) tt
    | inr ((name, key), good) ↦
        rw (fine, good)
          (parse_pairs-AreDistinct (i + 1) (insert name key keys) pairs
            (insert-DistinctKeys name key keys d))
  ]
]

-- The keys are a map: no name stands twice.
pub parse_app_keys-DistinctKeys :
    (raw : Text) (keys : List (Text × Text)) → parse_app_keys raw ≡ ok keys → DistinctKeys keys
unfolding parse_app_keys
parse_app_keys-DistinctKeys raw keys h = elim (Bool-cases (is_empty (trim_space raw))) [
  | inl blank ↦ cc (rw blank at h)
  | inr fine ↦
      subst AreDistinct (rw fine at h)
        (parse_pairs-AreDistinct 0 [] (split_on b';' (trim_space raw)) tt)
]
