-- ===== src/Base/Trim.antt =====
-- The laws of strings.TrimSpace.
use mathlib.Core.Path.{◌≡◌, refl, ap, ◌∙◌}
use mathlib.Core.Logic.{inl, inr}
use mathlib.Core.Bool.{false}
use mathlib.Core.List.{[], ◌∷◌, ◌++◌}
use native.Mathlib.Omega.{arith}
use Prim.Native.Nat.{ℕ, ◌≤◌}
use dify_game_gateway.Base.Lists.{length}
use dify_game_gateway.Base.Strings.{Text, trim_left, trim_right, trim_space, is_space, is_empty}
use dify_game_gateway.Base.Tests.{Bool-cases}

-- No space at either end.
abbrev pub IsTrimmed : Text → Type 0
IsTrimmed s = (trim_left s ≡ s) × (trim_right s ≡ s)

length-trim_left : (s : Text) → length (trim_left s) ≤ length s
unfolding trim_left
length-trim_left [] = omega arith
length-trim_left (c ∷ s) = ground (arith, length-trim_left s)

pub first_no_space : (c : ℕ) (s : Text) → trim_left (c ∷ s) ≡ c ∷ s → is_space c ≡ false
unfolding trim_left
first_no_space c s h = elim (Bool-cases (is_space c)) [
  | inl space ↦
      let shorter : trim_left s ≡ c ∷ s = rw space at h in
      absurd (omega (arith, length-trim_left s, ap length shorter))
  | inr other ↦ other
]

pub trim_left-append :
    (s t : Text) → is_empty s ≡ false → trim_left s ≡ s → trim_left (s ++ t) ≡ s ++ t
unfolding trim_left
trim_left-append [] t h e = cc
trim_left-append (c ∷ s) t h e = rw (first_no_space c s e) refl

pub is_empty-append : (s t : Text) → is_empty t ≡ false → is_empty (s ++ t) ≡ false
is_empty-append [] t h = h
is_empty-append (c ∷ s) t h = refl

pub trim_right-append :
    (s t : Text) → is_empty t ≡ false → trim_right t ≡ t → trim_right (s ++ t) ≡ s ++ t
unfolding trim_right
trim_right-append [] t h e = e
trim_right-append (c ∷ s) t h e = elim (Bool-cases (is_space c)) [
  | inl space ↦ rw (trim_right-append s t h e, space, is_empty-append s t h) refl
  | inr other ↦ rw (trim_right-append s t h e, other) refl
]

pub trim_space_of_IsTrimmed : (s : Text) → IsTrimmed s → trim_space s ≡ s
unfolding trim_space
trim_space_of_IsTrimmed s (left, right) = ap trim_right left ∙ right

-- Two texts without spaces at their ends, with a rune between them.
pub IsTrimmed-append :
    (s t : Text) (c : ℕ)
    → IsTrimmed s
    → IsTrimmed t
    → is_empty s ≡ false
    → is_empty t ≡ false
    → IsTrimmed (s ++ c ∷ t)
IsTrimmed-append s t c (left, _) (_, right) h k = (
  trim_left-append s (c ∷ t) h left,
  trim_right-append s (c ∷ t) refl (trim_right-append (c ∷ []) t k right),
)

trim_right-trim_right : (s : Text) → trim_right (trim_right s) ≡ trim_right s
unfolding trim_right
trim_right-trim_right [] = refl
trim_right-trim_right (c ∷ s) = elim (Bool-cases (is_space c)) [
  | inr other ↦ rw (other, trim_right, other, trim_right-trim_right s) refl
  | inl space ↦ elim (Bool-cases (is_empty (trim_right s))) [
    | inl none_left ↦ rw (space, none_left) refl
    | inr some_left ↦
        rw (space, some_left, trim_right, trim_right-trim_right s, space, some_left) refl
  ]
]

trim_left-trim_right : (s : Text) → trim_left s ≡ s → trim_left (trim_right s) ≡ trim_right s
unfolding trim_left trim_right
trim_left-trim_right [] h = refl
trim_left-trim_right (c ∷ s) h =
    let other = first_no_space c s h in rw (other, trim_left, other) refl

trim_left-trim_left : (s : Text) → trim_left (trim_left s) ≡ trim_left s
unfolding trim_left
trim_left-trim_left [] = refl
trim_left-trim_left (c ∷ s) = elim (Bool-cases (is_space c)) [
  | inl space ↦ rw space (trim_left-trim_left s)
  | inr other ↦ rw (other, trim_left, other) refl
]

-- What TrimSpace gives is trimmed.
pub trim_space-IsTrimmed : (s : Text) → IsTrimmed (trim_space s)
unfolding trim_space
trim_space-IsTrimmed s = (
  trim_left-trim_right (trim_left s) (trim_left-trim_left s),
  trim_right-trim_right (trim_left s),
)
