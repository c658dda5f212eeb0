-- ===== src/Moderation/Search.antt =====
-- internal/moderation/moderation.go: the search for a word in a text, and the end of a text.
use dify_game_gateway.Moderation.{contains, has_prefix, last_runes}
use dify_game_gateway.Base.{
  [], ◌∷◌, false, ℕ, Text, refl, zero, suc, length, ◌≤◌, ◌≡◌, arith, ◌++◌, length-append, sym, ap,
  append_assoc, drop, ◌-◌, ◌∙◌, take_last, dec_le, leb, drop-length,
}

has_prefix-append : (w s t : Text) → length w ≤ length s → has_prefix w (s ++ t) ≡ has_prefix w s
unfolding has_prefix
has_prefix-append [] s t h = refl
has_prefix-append (c ∷ w) [] t h = elim h [ ]
has_prefix-append (c ∷ w) (d ∷ s) t h = rw (has_prefix-append w s t (omega arith))

has_prefix_of_contains :
    (w : Text) (c : ℕ) (s : Text)
    → contains w (c ∷ s) ≡ false
    → (has_prefix w (c ∷ s) ≡ false) × (contains w s ≡ false)
unfolding contains
has_prefix_of_contains w c s h = ground arith

-- A word that fits into the overlap and one rune more is seen in what is joined, if it is there.
pub contains-append :
    (w before overlap after : Text)
    → length w ≤ suc (length overlap)
    → contains w (before ++ overlap) ≡ false
    → contains w (overlap ++ after) ≡ false
    → contains w (before ++ (overlap ++ after)) ≡ false
unfolding contains
contains-append w [] overlap after short old new = new
contains-append w (c ∷ before) overlap after short old new =
    let (head, tail) = has_prefix_of_contains w c (before ++ overlap) old in
    let long = length-append before overlap in
    let cut = has_prefix-append w (c ∷ before ++ overlap) after (omega arith) in
    let rest = contains-append w before overlap after short tail new in
    let first : has_prefix w (c ∷ before ++ (overlap ++ after)) ≡ false =
      ap (λ s. has_prefix w (c ∷ s)) (sym (append_assoc before overlap after)) ∙ cut ∙ head in
    rw (first, rest)

-- The rune count of the overlap is never negative here.
pub last_runes-eq : (s : Text) (n : ℕ) → last_runes s n ≡ take_last n s
unfolding last_runes
last_runes-eq [] n = ground arith
last_runes-eq (c ∷ s) zero =
    let all : length (c ∷ s) - 0 ≡ length (c ∷ s) = omega arith in
    sym (ap (λ k. drop k (c ∷ s)) all ∙ drop-length (c ∷ s))
last_runes-eq (c ∷ s) (suc n) = elim (dec_le (length (c ∷ s)) (suc n)) [
  | yes p ↦
      let all : length (c ∷ s) - suc n ≡ 0 = omega arith in
      let whole : drop (length (c ∷ s) - suc n) (c ∷ s) ≡ c ∷ s = ap (λ k. drop k (c ∷ s)) all in
      ground (arith, whole)
  | no p ↦ let test : leb (length (c ∷ s)) (suc n) ≡ false = ground arith in ground (arith, test)
]
