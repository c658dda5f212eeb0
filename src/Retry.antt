-- ===== src/Retry.antt =====
-- internal/dify/client.go: the retries of a request to the upstream and the waits between them. The
-- HTTP call is a parameter: what each attempt answers. Durations are nanoseconds.
pub mod Backoff
pub mod Attempts
mod Tests
use dify_game_gateway.Base.{
  ℕ, zero, suc, ◌+◌, ◌*◌, ◌-◌, Bool, Option, none, some, List, [], ◌∷◌, ltb, leb, ◌==◌, ◌||◌, not,
  if◌then◌else◌,
}
use dify_game_gateway.Pipeline.Errors.{Failure, upstream, other}

abbrev pub max_attempts : ℕ
max_attempts = 3

abbrev pub base_backoff : ℕ
base_backoff = 500_000_000

abbrev pub max_backoff : ℕ
max_backoff = 5_000_000_000

unfoldable pub is_retryable : ℕ → Bool
is_retryable status = status == 429 || leb 500 status

-- The loop of retryBackoff, with the rounds that are left.
unfoldable pub backoff_from : ℕ → ℕ → ℕ
backoff_from zero d = if ltb max_backoff d then max_backoff else d
backoff_from (suc rounds) d =
    let rest = backoff_from rounds (d * 2) in if leb max_backoff (d * 2) then max_backoff else rest

unfoldable pub retry_backoff : ℕ → ℕ
unfolding backoff_from
retry_backoff attempt = backoff_from ((if ltb attempt 1 then 1 else attempt) - 1) base_backoff

-- What an attempt answers: a response, an UpstreamError by its status and its Retry-After, or any
-- other error.
pub data Outcome : Type 0 where
  responded : Outcome
  refused : (status retry_after : ℕ) → Outcome
  broken : Outcome

pub data Answer : Type 0 where
  response : Answer
  failure : Failure → Answer

unfoldable pub wait_of : ℕ → ℕ → ℕ
wait_of attempt retry_after =
    let backoff = retry_backoff attempt in if ltb backoff retry_after then retry_after else backoff

-- The upstream by the number of the attempt, and what the sleep after an attempt ends with.
module _ (outcome : ℕ → Outcome) (slept : ℕ → Option Failure) where
  -- The loop, with the attempts that are left and the number of the next: the waits and the answer.
  unfoldable pub attempt_from : ℕ → ℕ → List ℕ × Answer
  attempt_from zero attempt = ([], failure other)
  attempt_from (suc left) attempt = elim (outcome attempt) [
    | responded ↦ ([], response)
    | broken ↦ ([], failure other)
    | refused status retry_after ↦
        if not (is_retryable status) || attempt == max_attempts
        then ([], failure (upstream status))
        else elim (slept attempt) [
          | some e ↦ (wait_of attempt retry_after ∷ [], failure e)
          | none ↦
              let (waits, answer) = attempt_from left (attempt + 1) in
              (wait_of attempt retry_after ∷ waits, answer)
        ]
  ]

  unfoldable pub do_request_with_retry : List ℕ × Answer
  unfolding attempt_from
  do_request_with_retry = attempt_from max_attempts 1
