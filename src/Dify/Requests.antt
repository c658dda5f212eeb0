-- ===== src/Dify/Requests.antt =====
-- internal/dify/client.go and sse.go: a chat from the request to the stream, and the waits that the
-- upstream asks for.
use dify_game_gateway.Base.{
  ℕ, ◌*◌, ◌^◌, ◌≤◌, ◌<◌, none, some, true, Text, text, List, Option, ◌≡◌, refl, ap, ◌∙◌, arith,
  decimal, decimal-IsTrimmed, trim_space_of_IsTrimmed, atoi-decimal, le→leb, lt→ltb,
}
use dify_game_gateway.Base.Int.{pos, pos_part, wrap_int64}
use dify_game_gateway.Pipeline.Errors.{Failure, ok}
use dify_game_gateway.Retry.{
  do_request_with_retry, response, responded, refused, is_retryable, wait_of,
}
use dify_game_gateway.Retry.Attempts.{do_request_with_retry-responded}
use dify_game_gateway.Sse.{SseEvent, parse_sse}
use dify_game_gateway.Dify.Blocking.{ResponsePayload, result_of, chat, send_chat}
use dify_game_gateway.Dify.{
  Client, ChatReq, Payload, payload_of, HttpRequest, HttpReply, answered, outcome_of, prepare,
  chat_request, parse_retry_after, seconds_of, chat_stream, send, streamed,
}

-- The seconds whose nanoseconds an int64 holds.
abbrev pub max_seconds : ℕ
max_seconds = 9_223_372_036

wrap_int64_small : (n : ℕ) → n < 2 ^ 63 → wrap_int64 (pos n) ≡ pos n
wrap_int64_small n h = ground arith

seconds_small : (n : ℕ) → n ≤ max_seconds → seconds_of (some (pos n)) ≡ pos (n * 1_000_000_000)
unfolding seconds_of
seconds_small n h =
    let in_range = wrap_int64_small (n * 1_000_000_000) (omega arith) in ground (arith, in_range)

parse_retry_after-decimal :
    (n : ℕ) → n ≤ max_seconds → parse_retry_after (decimal n) ≡ pos (n * 1_000_000_000)
unfolding parse_retry_after
parse_retry_after-decimal n h =
    let (trimmed, filled) = decimal-IsTrimmed n in
    rw (trim_space_of_IsTrimmed (decimal n) trimmed, filled, atoi-decimal n (omega arith))
      (seconds_small n h)

-- A Retry-After in seconds is honoured: whichever attempt it answers, the wait after it is at least as long as
-- the upstream asks for, up to the 292 years that an int64 of nanoseconds holds.
pub wait_of-parse_retry_after :
    (attempt n : ℕ)
    → n ≤ max_seconds
    → n * 1_000_000_000 ≤ wait_of attempt (pos_part (parse_retry_after (decimal n)))
unfolding wait_of
wait_of-parse_retry_after attempt n h = rw (parse_retry_after-decimal n h) (ground arith)

-- An answer that an attempt is repeated for.
abbrev pub IsBusy : HttpReply → Type 0
IsBusy reply =
    (status : ℕ) × (retry_after : Text) × (reply ≡ answered status retry_after)
    × (is_retryable status ≡ true)

pub busy_refused :
    (status : ℕ) (retry_after : Text)
    → is_retryable status ≡ true
    → outcome_of (answered status retry_after)
      ≡ refused status (pos_part (parse_retry_after retry_after))
unfolding outcome_of is_retryable
busy_refused status retry_after h = ground arith

-- An answer of success.
abbrev pub IsAnswered : HttpReply → Type 0
IsAnswered reply =
    (status : ℕ) × (retry_after : Text) × (reply ≡ answered status retry_after)
    × (200 ≤ status)
    × (status < 300)

answered_responded : (reply : HttpReply) → IsAnswered reply → outcome_of reply ≡ responded
unfolding outcome_of
answered_responded reply (status, retry_after, given, from, below) =
    ap outcome_of given ∙ rw (le→leb 200 status from, lt→ltb status 300 below) refl

-- One of the first three attempts is answered with success, each before it finds a busy upstream, and no sleep is
-- interrupted.
abbrev pub GetsThrough : (ℕ → HttpReply) → (ℕ → Option Failure) → ℕ → Type 0
GetsThrough replies slept k =
    (1 ≤ k)
    × (k ≤ 3)
    × IsAnswered (replies k)
    × ((n : ℕ) → 1 ≤ n → n < k → IsBusy (replies n) × (slept n ≡ none))

response_of_GetsThrough :
    (replies : ℕ → HttpReply) (slept : ℕ → Option Failure) (k : ℕ)
    → GetsThrough replies slept k
    → (do_request_with_retry (λ n. outcome_of (replies n)) slept).1 ≡ response
response_of_GetsThrough replies slept k (low, high, now, busy) =
    (do_request_with_retry-responded (λ n. outcome_of (replies n)) slept k low high
      (answered_responded (replies k) now)
      λ n lower upper.
        let ((code, header, answer, again), awake) = busy n lower upper in
        (
          (
            code,
            pos_part (parse_retry_after header),
            ap outcome_of answer ∙ busy_refused code header again,
            again,
          ),
          awake,
        )).0

module _ (marshal : Payload → Option (List ℕ)) (http : HttpRequest → ℕ → HttpReply)
    (slept : ℕ → Option Failure) where
  -- A chat comes through a busy upstream: if its request is complete and one of the first three attempts is
  -- answered with a status of success, each before it with 429 or a fault of the server, and no sleep is
  -- interrupted, the caller gets what the stream of the response gives.
  pub chat_stream-parse_sse :
      (decode : Text → Option SseEvent) (c : Client) (req : ChatReq) (lines : List Text)
      (cause : Option Failure) (body : List ℕ) (k : ℕ)
      → prepare c req ≡ none
      → marshal (payload_of (text "streaming") req) ≡ some body
      → GetsThrough (http (chat_request c (text "text/event-stream") body)) slept k
      → (chat_stream marshal http slept decode c req lines cause).1 ≡ parse_sse decode lines cause
  unfolding chat_stream send streamed
  chat_stream-parse_sse decode c req lines cause body k complete written through =
      let request = chat_request c (text "text/event-stream") body in
      rw
        (
          complete,
          chat_stream,
          written,
          send,
          response_of_GetsThrough (http request) slept k through,
        )
        refl

  -- A chat in one piece comes through a busy upstream: if its request is complete, one of the first three attempts is
  -- answered with a status of success, each before it with 429 or a fault of the server, no sleep is interrupted and
  -- the response can be decoded, the caller gets the response's answer, conversation, message and tokens.
  chat-result_of :
      (decoded : HttpRequest → Option ResponsePayload) (c : Client) (req : ChatReq) (body : List ℕ)
      (k : ℕ) (payload : ResponsePayload)
      → prepare c req ≡ none
      → marshal (payload_of (text "blocking") req) ≡ some body
      → GetsThrough (http (chat_request c (text "application/json") body)) slept k
      → decoded (chat_request c (text "application/json") body) ≡ some payload
      → (chat marshal http slept decoded c req).1 ≡ ok (result_of payload)
  unfolding chat send_chat
  chat-result_of decoded c req body k payload complete written through read =
      let request = chat_request c (text "application/json") body in
      rw
        (
          complete,
          chat,
          written,
          send_chat,
          response_of_GetsThrough (http request) slept k through,
          read,
        )
        refl
