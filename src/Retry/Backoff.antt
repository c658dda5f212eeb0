-- ===== src/Retry/Backoff.antt =====
-- internal/dify/client.go, retryBackoff: the backoff and its formula.
use dify_game_gateway.Base.{
  ℕ, zero, suc, ◌*◌, ◌-◌, ◌≤◌, ◌≡◌, refl, ap, sym, ◌∙◌, arith, ltb, if◌then◌else◌,
}
use dify_game_gateway.Retry.{max_backoff, base_backoff, backoff_from, retry_backoff}

-- d, doubled a number of times.
abbrev pub doubled : ℕ → ℕ → ℕ
doubled zero d = d
doubled (suc n) d = doubled n (d * 2)

doubled_le : (n d : ℕ) → d ≤ doubled n d
doubled_le zero d = omega arith
doubled_le (suc n) d = omega (arith, doubled_le n (d * 2))

abbrev pub at_most : ℕ → ℕ → ℕ
at_most limit d = if ltb limit d then limit else d

backoff_from-eq : (n d : ℕ) → backoff_from n d ≡ at_most max_backoff (doubled n d)
unfolding backoff_from
backoff_from-eq zero d = refl
backoff_from-eq (suc n) d = ground (arith, backoff_from-eq n (d * 2), doubled_le n (d * 2))

-- The wait after the nth attempt is the base wait doubled n - 1 times, and never more than the
-- greatest wait.
pub retry_backoff-eq :
    (attempt : ℕ) → retry_backoff attempt ≡ at_most max_backoff (doubled (attempt - 1) base_backoff)
unfolding retry_backoff
retry_backoff-eq zero = refl
retry_backoff-eq (suc n) =
    let rounds : (if ltb (suc n) 1 then 1 else suc n) - 1 ≡ n = ground arith in
    let same : suc n - 1 ≡ n = omega arith in
    ap (λ k. backoff_from k base_backoff) rounds
    ∙ backoff_from-eq n base_backoff
    ∙ ap (λ k. at_most max_backoff (doubled k base_backoff)) (sym same)
