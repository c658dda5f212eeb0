-- ===== src/Base/Decimal.antt =====
-- strconv: what is printed is read back.
use Prim.Native.Nat.{ℕ, zero, suc, ◌+◌, ◌-◌, ◌*◌, ◌/◌, ◌%◌, ◌^◌, ◌<◌, ◌≤◌}
use mathlib.Core.Path.{◌≡◌, refl, ap, ◌∙◌, sym}
use mathlib.Core.Logic.{inl, inr}
use mathlib.Core.Bool.{false}
use mathlib.Core.Option
use mathlib.Core.Option.{Option, none, some}
use mathlib.Core.List.{[], ◌∷◌, ◌++◌}
use native.Mathlib.Omega.{arith}
use dify_game_gateway.Base.Int.{pos, atoi, in_int64}
use dify_game_gateway.Base.Lists.{All, All-append}
use dify_game_gateway.Base.Strings.{
  Text, decimal, decimal_from, digits, digits_from, is_space, is_empty, trim_left, trim_right,
}
use dify_game_gateway.Base.Trim.{IsTrimmed, is_empty-append}
use dify_game_gateway.Base.Tests.{Bool-cases, ltb, ◌==◌}

abbrev pub IsDigit : ℕ → Type 0
IsDigit c = (48 ≤ c) × (c ≤ 57)

digits_from-append :
    (acc m d : ℕ) (s : Text)
    → d < 10
    → digits_from acc s ≡ some m
    → digits_from acc (s ++ (b'0' + d) ∷ []) ≡ some (m * 10 + d)
unfolding digits_from
digits_from-append acc m d [] h e = ground arith
digits_from-append acc m d (c ∷ s) h e =
    ground (arith, digits_from-append (acc * 10 + (c - b'0')) m d s h)

digits_from-decimal_from : (fuel n : ℕ) → n < fuel → digits_from 0 (decimal_from fuel n) ≡ some n
unfolding digits_from decimal_from
digits_from-decimal_from zero n h = absurd (omega arith)
digits_from-decimal_from (suc fuel) n h = elim (Bool-cases (ltb n 10)) [
  | inl small ↦ rw small (ground arith)
  | inr large ↦ rw large (
      digits_from-append 0 (n / 10) (n % 10) (decimal_from fuel (n / 10)) (omega arith)
        (digits_from-decimal_from fuel (n / 10) (ground arith))
      ∙ ap some (omega arith))
]

decimal_from-IsDigit : (fuel n : ℕ) → All IsDigit (decimal_from fuel n)
unfolding decimal_from
decimal_from-IsDigit zero n = tt
decimal_from-IsDigit (suc fuel) n = elim (Bool-cases (ltb n 10)) [
  | inl small ↦ rw small ((omega arith, ground arith), tt)
  | inr large ↦ rw large (
      All-append IsDigit (decimal_from fuel (n / 10)) _ (decimal_from-IsDigit fuel (n / 10))
        ((omega arith, omega arith), tt))
]

pub decimal-IsDigit : (n : ℕ) → All IsDigit (decimal n)
unfolding decimal
decimal-IsDigit n = decimal_from-IsDigit (suc n) n

decimal_from-filled : (fuel n : ℕ) → is_empty (decimal_from (suc fuel) n) ≡ false
unfolding decimal_from
decimal_from-filled fuel n = elim (Bool-cases (ltb n 10)) [
  | inl small ↦ rw small refl
  | inr large ↦ rw large (is_empty-append (decimal_from fuel (n / 10)) _ refl)
]

atoi_of_digits :
    (s : Text) (n : ℕ)
    → All IsDigit s
    → is_empty s ≡ false
    → digits_from 0 s ≡ some n
    → atoi s ≡ in_int64 (pos n)
unfolding atoi digits Option.bind
atoi_of_digits [] n h filled e = cc
atoi_of_digits (c ∷ s) n (h, _) filled e =
    let no_minus : (c == b'-') ≡ false = ground arith in
    let no_plus : (c == b'+') ≡ false = ground arith in
    rw (no_minus, no_plus) (ap (λ o. Option.bind o (λ m. in_int64 (pos m))) e)

-- Atoi reads back every number of an int64 that is printed.
pub atoi-decimal : (n : ℕ) → n < 2 ^ 63 → atoi (decimal n) ≡ some (pos n)
unfolding decimal
atoi-decimal n h =
    atoi_of_digits (decimal n) n (decimal-IsDigit n) (decimal_from-filled n n)
      (digits_from-decimal_from (suc n) n (omega arith))
    ∙ ground arith

digit_no_space : (c : ℕ) → IsDigit c → is_space c ≡ false
unfolding is_space
digit_no_space c h = ground arith

digits-IsTrimmed : (s : Text) → All IsDigit s → IsTrimmed s
unfolding trim_left trim_right
digits-IsTrimmed [] h = (refl, refl)
digits-IsTrimmed (c ∷ s) (h, hs) =
    let other : is_space c ≡ false = digit_no_space c h in
    rw other (refl, ap (λ r. c ∷ r) (digits-IsTrimmed s hs).1)

pub decimal-IsTrimmed : (n : ℕ) → IsTrimmed (decimal n) × (is_empty (decimal n) ≡ false)
unfolding decimal
decimal-IsTrimmed n = (digits-IsTrimmed (decimal n) (decimal-IsDigit n), decimal_from-filled n n)

-- Different numbers are printed differently.
pub decimal_injective : (a b : ℕ) → decimal a ≡ decimal b → a ≡ b
unfolding decimal
decimal_injective a b same =
    let left = digits_from-decimal_from (suc a) a (omega arith) in
    let right = digits_from-decimal_from (suc b) b (omega arith) in
    let equal : some a ≡ some b = sym left ∙ ap (digits_from 0) same ∙ right in
    ground (arith, equal)
