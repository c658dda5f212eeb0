-- ===== src/Pipeline/Errors.antt =====
-- internal/pipeline/handler.go: the errors of the calls that a handler makes, by what errors.Is and
-- errors.As find in them, and the code that a client is told.
use dify_game_gateway.Base.{
  ℕ, ◌+◌, Text, text, text_eq, Bool, ◌&&◌, ◌||◌, map, Option, none, some, leb, ◌==◌, if◌then◌else◌,
}

pub data Failure : Type 0 where
  rate_limited budget_exceeded inflight_full circuit_open : Failure
  deadline_exceeded : Failure
  canceled : Failure
  upstream : (status_code : ℕ) → Failure
  stream_failed : (code : Text) → Failure
  message_replaced : (fallback : Text) → Failure
  stream_incomplete : Failure
  other : Failure

pub data Result {ℓ} (A : Type ℓ) : Type ℓ where
  ok : A → Result A
  err : Failure → Result A

-- strings.EqualFold with "rate_limited": no letter of it has a fold outside ASCII.
pub ascii_lower : ℕ → ℕ
ascii_lower c = if leb b'A' c && leb c b'Z' then c + 32 else c

unfoldable pub is_rate_limited_code : Text → Bool
unfolding ascii_lower
is_rate_limited_code code = text_eq (map ascii_lower code) (text "rate_limited")

pub upstream_code : ℕ → Text
upstream_code status =
    if status == 429
    then text "RATE_LIMITED"
    else if status == 504 || status == 408
    then text "UPSTREAM_TIMEOUT"
    else text "UPSTREAM_ERROR"

unfoldable pub client_error_code : Failure → Text
unfolding upstream_code
client_error_code rate_limited = text "RATE_LIMITED"
client_error_code budget_exceeded = text "RATE_LIMITED"
client_error_code inflight_full = text "RATE_LIMITED"
client_error_code circuit_open = text "RATE_LIMITED"
client_error_code deadline_exceeded = text "UPSTREAM_TIMEOUT"
client_error_code (upstream status) = upstream_code status
client_error_code (stream_failed code) =
    if is_rate_limited_code code then text "RATE_LIMITED" else text "UPSTREAM_ERROR"
client_error_code _ = text "UPSTREAM_ERROR"

unfoldable pub message_of_code : Text → Text
message_of_code code =
    if text_eq code (text "RATE_LIMITED")
    then text "rate limited"
    else if text_eq code (text "UPSTREAM_TIMEOUT")
    then text "upstream timeout"
    else if text_eq code (text "BAD_REQUEST")
    then text "bad request"
    else text "upstream error"

unfoldable pub client_error_message : Failure → Text
unfolding message_of_code
client_error_message e = message_of_code (client_error_code e)

unfoldable pub message_replace : Failure → Option Text
message_replace (message_replaced fallback) = some fallback
message_replace _ = none
