-- ===== src/DifyMock/Recovery.antt =====
-- internal/difymock/difymock.go and internal/dify/client.go: a client whose mock refuses some of its attempts.
use dify_game_gateway.Base.{
  ℕ, suc, ◌≤◌, [], none, some, true, false, Text, text, List, Option, ◌≡◌, refl, ap, ◌∙◌, arith,
  if◌then◌else◌, ◌||◌, leb, Bool-cases, inl, inr,
}
use dify_game_gateway.Base.Int.{pos}
use dify_game_gateway.Pipeline.Errors.{Failure, upstream}
use dify_game_gateway.Retry.{is_retryable}
use dify_game_gateway.Retry.Attempts.{do_request_with_retry-refused}
use dify_game_gateway.Dify.{
  silent, Client, ChatReq, Payload, payload_of, HttpRequest, HttpReply, outcome_of, prepare,
  chat_request, chat_stream, send, streamed,
}
use dify_game_gateway.Dify.Requests.{chat_stream-parse_sse, busy_refused}
use dify_game_gateway.Sse.{parse_sse}
use dify_game_gateway.Sse.Scanning.{scan_lines}
use dify_game_gateway.DifyMock.{Mock, ChatBody, stream_sse, Response}
use dify_game_gateway.DifyMock.Script.{
  steady, joined, FitsScanner, told, ending, error_of, tokens_at, Tells,
}
use dify_game_gateway.DifyMock.Streaming.{parse_sse-stream_sse}
use dify_game_gateway.DifyMock.Json.{Json}
use dify_game_gateway.DifyMock.Attempts.{IsFresh, http, http-injected, http-streamed}

module _ (j : Json) (decode_chat : List ℕ → ChatBody) (unescape : Text → Option Text)
    (decode_user : List ℕ → Text) (redirect : Text → Option Response)
    (marshal : Payload → Option (List ℕ)) (slept : ℕ → Option Failure) where
  -- The upstream of a client that is this mock, and what the client scans of the stream that it has for it.
  abbrev pub mocked : Client → List ℕ → Mock → HttpRequest → ℕ → HttpReply
  mocked c body s =
      http j.marshal decode_chat unescape decode_user redirect steady c (text "text/event-stream")
        body s

  abbrev pub scanned : Mock → List Text × Option Failure
  scanned s = scan_lines (joined (stream_sse j.marshal steady s.behavior.events)) none

  -- A client and a mock that fit: the request is complete and can be written, and the mock takes it, with no chat
  -- since SetChat; its injected status is one that is retried, it does not hang, what it writes for an event has at
  -- most the 4 MiB of the client's scanner, and no sleep is interrupted.
  pub record Fits (c : Client) (req : ChatReq) (body : List ℕ) (s : Mock) : Type 0 where
    pub complete : prepare c req ≡ none
    pub written : marshal (payload_of (text "streaming") req) ≡ some body
    pub is_fresh :
        IsFresh j.marshal decode_chat unescape decode_user redirect steady c
          (text "text/event-stream")
          body
          s
    pub busy : is_retryable s.behavior.status ≡ true
    pub short : FitsScanner (stream_sse j.marshal steady s.behavior.events)
    pub stays : s.behavior.hang ≡ false
    pub awake : (n : ℕ) → slept n ≡ none

  module _ (c : Client) (req : ChatReq) (body : List ℕ) (s : Mock) (fits : Fits c req body s) where
    -- An upstream whose faults pass within the three attempts gives its stream.
    recovers :
        (s.behavior.fail_forever || leb 3 s.behavior.fail_times) ≡ false
        → (chat_stream marshal (mocked c body s) slept j.decode c req (scanned s).0 (scanned s).1).1
          ≡ parse_sse j.decode (scanned s).0 (scanned s).1
    recovers passes =
        let k = suc s.behavior.fail_times in
        let now =
          http-streamed j.marshal decode_chat unescape decode_user redirect steady c
            (text "text/event-stream") body s k (omega arith) fits.is_fresh fits.stays
            (ground arith) in
        chat_stream-parse_sse marshal (mocked c body s) slept j.decode c req (scanned s).0
          (scanned s).1 body k fits.complete fits.written
          (
            ground arith,
            ground arith,
            (200, [], now, omega arith, omega arith),
            λ n low high.
                let again =
                  http-injected j.marshal decode_chat unescape decode_user redirect steady c
                    (text "text/event-stream") body s n low fits.is_fresh fits.busy
                    (ground arith) in
                ((s.behavior.status, s.behavior.retry_after, again, fits.busy), fits.awake n),
          )

    -- One whose faults do not pass is given up.
    gives_up :
        (s.behavior.fail_forever || leb 3 s.behavior.fail_times) ≡ true
        → (chat_stream marshal (mocked c body s) slept j.decode c req (scanned s).0 (scanned s).1).1
          ≡ silent (upstream s.behavior.status)
    unfolding chat_stream send streamed
    gives_up lasts =
        let request = chat_request c (text "text/event-stream") body in
        let refusal = λ (n : ℕ) (low : 1 ≤ n) (high : n ≤ 3).
          let again =
            http-injected j.marshal decode_chat unescape decode_user redirect steady c
              (text "text/event-stream") body s n low fits.is_fresh fits.busy (ground arith) in
          ap outcome_of again ∙ busy_refused s.behavior.status s.behavior.retry_after fits.busy in
        let (given_up, _) =
          do_request_with_retry-refused (λ n. outcome_of (mocked c body s request n)) slept
            s.behavior.status _ fits.busy refusal fits.awake in
        rw (fits.complete, chat_stream, fits.written, send, given_up) refl

    -- A chat against an upstream with faults: a client that fits the mock (a complete request that the mock takes,
    -- faults of a status that is retried, no hanging, events that are written in at most the 4 MiB of the client's
    -- scanner and no interrupted sleep) gets the script of the mock whole, its task, its answers and its end, if the
    -- faults pass within three attempts, else nothing but an error with the status of the faults.
    pub chat_stream-mocked :
        let lasts = s.behavior.fail_forever || leb 3 s.behavior.fail_times in
        let script = s.behavior.events in
        Tells
          (if lasts then [] else told [] script)
          (if lasts then some (upstream s.behavior.status) else error_of none (ending script))
          (if lasts then pos 0 else tokens_at (pos 0) (ending script))
          (chat_stream marshal (mocked c body s) slept j.decode c req (scanned s).0 (scanned s).1).1
    chat_stream-mocked =
        elim (Bool-cases (s.behavior.fail_forever || leb 3 s.behavior.fail_times)) [
          | inl lasts ↦ rw (lasts, gives_up lasts) (refl, refl, refl)
          | inr passes ↦
              rw (passes, recovers passes)
                (parse_sse-stream_sse j s.behavior.events none fits.short)
        ]
