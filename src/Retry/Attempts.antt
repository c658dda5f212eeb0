-- ===== src/Retry/Attempts.antt =====
-- internal/dify/client.go, doRequestWithRetry: the number of the attempts and their answer.
use dify_game_gateway.Base.{
  ℕ, zero, suc, ◌+◌, ◌-◌, ◌≤◌, ◌<◌, true, Option, none, length, ◌≡◌, refl, arith, ◌∙◌, ap,
  ℕ_discrete,
}
use dify_game_gateway.Pipeline.Errors.{Failure, upstream}
use dify_game_gateway.Retry.{
  failure, Outcome, responded, refused, response, is_retryable, attempt_from, do_request_with_retry,
}

module _ (outcome : ℕ → Outcome) (slept : ℕ → Option Failure) where
  -- An attempt that the upstream refuses for a while, and whose sleep is not interrupted.
  abbrev pub IsPassing : ℕ → Type 0
  IsPassing n =
      ((status : ℕ) × (retry_after : ℕ) × (outcome n ≡ refused status retry_after)
        × (is_retryable status ≡ true))
      × (slept n ≡ none)

  length-attempt_from :
      (left attempt : ℕ)
      → left + attempt ≡ 4
      → length (attempt_from outcome slept left attempt).0 + 1 ≤ left + (1 - left)
  unfolding attempt_from
  length-attempt_from zero attempt h = omega arith
  length-attempt_from (suc left) attempt h = ground (arith, length-attempt_from left (attempt + 1))

  attempt_from-responded :
      (left attempt k : ℕ)
      → left + attempt ≡ 4
      → attempt ≤ k
      → k ≤ 3
      → outcome k ≡ responded
      → ((n : ℕ) → attempt ≤ n → n < k → IsPassing n)
      → let (waits, answer) = attempt_from outcome slept left attempt in
        (answer ≡ response) × (length waits + attempt ≡ k)
  unfolding attempt_from
  attempt_from-responded zero attempt k h low high ok passing = ground arith
  attempt_from-responded (suc left) attempt k h low high ok passing = elim (ℕ_discrete attempt k) [
    | yes same ↦
        let now : outcome attempt ≡ responded = ap outcome same ∙ ok in
        rw (now, attempt_from) (refl, omega arith)
    | no differ ↦
        let ((status, retry_after, refusal, again), awake) =
          passing attempt (omega arith) (omega arith) in
        let rest =
          attempt_from-responded left (attempt + 1) k (omega arith) (omega arith) high ok
            (λ n lower upper. passing n (omega arith) upper) in
        ground (arith, rest, refusal, again, awake)
  ]

  -- A request is tried at most three times, so it waits at most twice.
  pub length-do_request_with_retry : length (do_request_with_retry outcome slept).0 ≤ 2
  unfolding do_request_with_retry
  length-do_request_with_retry = omega (arith, length-attempt_from 3 1 (omega arith))

  -- A request succeeds if one of its first three attempts does, as long as each attempt before it was
  -- refused for a while (429 or a server's fault) and no sleep was interrupted; it waits once after
  -- each of these.
  pub do_request_with_retry-responded :
      (k : ℕ)
      → 1 ≤ k
      → k ≤ 3
      → outcome k ≡ responded
      → ((n : ℕ) → 1 ≤ n → n < k → IsPassing n)
      → let (waits, answer) = do_request_with_retry outcome slept in
        (answer ≡ response) × (length waits + 1 ≡ k)
  unfolding do_request_with_retry
  do_request_with_retry-responded k low high ok passing =
      attempt_from-responded 3 1 k (omega arith) low high ok passing

  -- An upstream that refuses each of the first three attempts for a while is given up with its status, after
  -- two waits.
  pub do_request_with_retry-refused :
      (status retry_after : ℕ)
      → is_retryable status ≡ true
      → ((n : ℕ) → 1 ≤ n → n ≤ 3 → outcome n ≡ refused status retry_after)
      → ((n : ℕ) → slept n ≡ none)
      → let (waits, answer) = do_request_with_retry outcome slept in
        (answer ≡ failure (upstream status)) × (length waits ≡ 2)
  unfolding do_request_with_retry attempt_from
  do_request_with_retry-refused status retry_after again refusal awake =
      let first = refusal 1 (omega arith) (omega arith) in
      let second = refusal 2 (omega arith) (omega arith) in
      let third = refusal 3 (omega arith) (omega arith) in
      ground (arith, first, second, third, again, awake 1, awake 2)
