-- ===== src/Base/Split.antt =====
-- strings.Cut, strings.Split and what follows strings.LastIndex, for the separators that the gateway uses.
use Prim.Native.Nat.{ℕ}
use mathlib.Core.Path.{◌≡◌, refl}
use mathlib.Core.Bool.{false}
use mathlib.Core.Option.{Option, none, some}
use mathlib.Core.List.{List, [], ◌∷◌, ◌++◌}
use native.Mathlib.Omega.{arith}
use dify_game_gateway.Base.Lists.{All}
use dify_game_gateway.Base.Strings.{Text, text_eq}
use dify_game_gateway.Base.Tests.{◌==◌, if◌then◌else◌}

-- What follows a prefix.
unfoldable pub drop_prefix : Text → Text → Option Text
drop_prefix [] s = some s
drop_prefix (c ∷ p) [] = none
drop_prefix (c ∷ p) (d ∷ s) = let rest = drop_prefix p s in if c == d then rest else none

abbrev pub longer : ℕ → Option (Text × Text) → Option (Text × Text)
longer c none = none
longer c (some (before, after)) = some (c ∷ before, after)

-- strings.Cut, for a separator that is not empty; nothing if it does not occur.
unfoldable pub cut : Text → Text → Option (Text × Text)
cut sep [] = none
cut sep (c ∷ s) =
    let rest = cut sep s in
    elim (drop_prefix sep (c ∷ s)) [ some after ↦ some ([], after) | none ↦ longer c rest ]

abbrev pub onto_first : ℕ → List Text → List Text
onto_first c [] = (c ∷ []) ∷ []
onto_first c (part ∷ parts) = (c ∷ part) ∷ parts

-- strings.Split, for a separator of one rune.
unfoldable pub split_on : ℕ → Text → List Text
split_on sep [] = [] ∷ []
split_on sep (c ∷ s) =
    let rest = split_on sep s in if c == sep then [] ∷ rest else onto_first c rest

-- What follows the last occurrence of a rune.
unfoldable pub after_last : ℕ → Text → Option Text
after_last sep [] = none
after_last sep (c ∷ s) = elim (after_last sep s) [
  | some after ↦ some after
  | none ↦ if c == sep then some s else none
]

abbrev pub AllDiffer : List Text → Type 0
AllDiffer [] = Unit
AllDiffer (t ∷ ts) = All (λ (u : Text). text_eq t u ≡ false) ts × AllDiffer ts

abbrev pub Lacks : ℕ → Text → Type 0
Lacks sep s = All (λ (c : ℕ). (c == sep) ≡ false) s

pub drop_prefix-append : (p s : Text) → drop_prefix p (p ++ s) ≡ some s
unfolding drop_prefix
drop_prefix-append [] s = refl
drop_prefix-append (c ∷ p) s = rw (drop_prefix-append p s) (ground arith)

-- A text without the first rune of the separator ends where the separator stands.
pub cut-append :
    (c : ℕ) (sep s t : Text) → Lacks c s → cut (c ∷ sep) (s ++ (c ∷ sep ++ t)) ≡ some (s, t)
unfolding cut drop_prefix
cut-append c sep [] t h = ground (arith, drop_prefix-append sep t)
cut-append c sep (d ∷ s) t (ne, h) = ground (arith, cut-append c sep s t h)

pub split_on-append :
    (sep : ℕ) (s t : Text) → Lacks sep s → split_on sep (s ++ sep ∷ t) ≡ s ∷ split_on sep t
unfolding split_on
split_on-append sep [] t h = ground arith
split_on-append sep (c ∷ s) t (ne, h) = rw (ne, split_on-append sep s t h) refl

pub split_on_of_Lacks : (sep : ℕ) (s : Text) → Lacks sep s → split_on sep s ≡ s ∷ []
unfolding split_on
split_on_of_Lacks sep [] h = refl
split_on_of_Lacks sep (c ∷ s) (ne, h) = rw (ne, split_on_of_Lacks sep s h) refl

after_last_of_Lacks : (sep : ℕ) (s : Text) → Lacks sep s → after_last sep s ≡ none
unfolding after_last
after_last_of_Lacks sep [] h = refl
after_last_of_Lacks sep (c ∷ s) (ne, h) = rw (after_last_of_Lacks sep s h, ne) refl

pub after_last-append :
    (sep : ℕ) (s t : Text) → Lacks sep t → after_last sep (s ++ sep ∷ t) ≡ some t
unfolding after_last
after_last-append sep [] t h = rw (after_last_of_Lacks sep t h) (ground arith)
after_last-append sep (c ∷ s) t h = rw (after_last-append sep s t h) refl

pub after_last_of_tail :
    (sep : ℕ) (s t u : Text) → after_last sep t ≡ some u → after_last sep (s ++ t) ≡ some u
unfolding after_last
after_last_of_tail sep [] t u h = h
after_last_of_tail sep (c ∷ s) t u h = rw (after_last_of_tail sep s t u h) refl
