-- ===== src/Dify.antt =====
-- internal/dify: a client of one Dify App, its chats and its stops. The HTTP calls, the JSON library and
-- the sleeps between attempts are parameters. `Retry` has the row of attempts and `Sse` the stream.
pub mod Blocking
pub mod Contract
pub mod Parameters
pub mod Requests
mod Sending
mod Tests
pub mod Uploads
use dify_game_gateway.Base.{
  ℕ, [], ◌∷◌, ◌++◌, ◌*◌, ◌^◌, none, some, true, false, Text, text, List, Bool, Option, ◌&&◌, ◌||◌,
  not, leb, ltb, if◌then◌else◌, is_empty, trim_space, ◌==◌,
}
use dify_game_gateway.Base.Int.{ℤ, pos, pos_part, atoi, is_negative, wrap_int64}
use dify_game_gateway.Pipeline.Errors.{Failure, other}
use dify_game_gateway.Retry.{
  Outcome, responded, refused, broken, Answer, response, failure, do_request_with_retry,
}
use dify_game_gateway.Sse.{SseEvent, Parsed, parse_sse}
use dify_game_gateway.Sse

pub record Client : Type 0 where
  pub base_url : Text
  pub api_key : Text

-- strings.TrimRight for one rune.
unfoldable pub trim_trailing : ℕ → Text → Text
trim_trailing c [] = []
trim_trailing c (d ∷ s) =
    let rest = trim_trailing c s in if c == d && is_empty rest then [] else d ∷ rest

unfoldable pub new_client : Text → Text → Client
unfolding trim_trailing
new_client base_url api_key = record { base_url = trim_trailing b'/' base_url; api_key = api_key }

pub record FileRef : Type 0 where
  pub kind : Text
  pub transfer_method : Text
  pub upload_file_id : Text

-- No inputs are Go's nil map.
pub record ChatReq : Type 0 where
  pub query : Text
  pub inputs : Option (List (Text × Text))
  pub user : Text
  pub conversation_id : Text
  pub files : List FileRef
  pub auto_generate_name : Option Bool

pub record Payload : Type 0 where
  pub query : Text
  pub inputs : Option (List (Text × Text))
  pub user : Text
  pub response_mode : Text
  pub conversation_id : Text
  pub files : List FileRef
  pub auto_generate : Option Bool

abbrev pub payload_of : Text → ChatReq → Payload
payload_of mode req = record {
  query = req.query;
  inputs = req.inputs;
  user = req.user;
  response_mode = mode;
  conversation_id = req.conversation_id;
  files = req.files;
  auto_generate = req.auto_generate_name;
}

-- What an HTTP request carries, but for its fixed Content-Type.
pub record HttpRequest : Type 0 where
  pub url : Text
  pub authorization : Text
  pub accept : Text
  pub body : List ℕ

-- How an HTTP call goes: it cannot be made, or it is answered.
pub data HttpReply : Type 0 where
  unreachable : HttpReply
  answered : (status : ℕ) (retry_after : Text) → HttpReply

unfoldable pub validate_chat_req : ChatReq → Option Failure
validate_chat_req req = if is_empty (trim_space req.query) then some other else elim req.inputs [
  | none ↦ some other
  | some _ ↦ if is_empty (trim_space req.user) then some other else none
]

unfoldable pub seconds_of : Option ℤ → ℤ
seconds_of none = pos 0
seconds_of (some secs) =
    if is_negative secs then pos 0 else wrap_int64 (pos (pos_part secs * 1_000_000_000))

-- In nanoseconds; the product of an int64 may wrap around.
unfoldable pub parse_retry_after : Text → ℤ
unfolding seconds_of
parse_retry_after header =
    let trimmed = trim_space header in if is_empty trimmed then pos 0 else seconds_of (atoi trimmed)

-- doRequest: what an attempt is for the retries. A wait below 0 counts there as 0 does.
unfoldable pub outcome_of : HttpReply → Outcome
outcome_of unreachable = broken
outcome_of (answered status retry_after) =
    if leb 200 status && ltb status 300
    then responded
    else refused status (pos_part (parse_retry_after retry_after))

-- What a chat needs, or what is missing.
unfoldable pub prepare : Client → ChatReq → Option Failure
unfolding validate_chat_req
prepare c req = elim (validate_chat_req req) [
  | some e ↦ some e
  | none ↦
      if is_empty (trim_space c.base_url)
      then some other
      else if is_empty (trim_space c.api_key)
      then some other
      else none
]

unfoldable pub chat_request : Client → Text → List ℕ → HttpRequest
chat_request c accept body = record {
  url = c.base_url ++ text "/chat-messages";
  authorization = text "Bearer " ++ c.api_key;
  accept = accept;
  body = body;
}

-- A stream that calls nothing back.
abbrev pub silent : Failure → Parsed
silent e = record {
  calls = [];
  result = record { conversation_id = []; message_id = []; total_tokens = pos 0 };
  error = some e;
}

module _ (marshal : Payload → Option (List ℕ)) (http : HttpRequest → ℕ → HttpReply)
    (slept : ℕ → Option Failure) (decode : Text → Option SseEvent) where
  -- What the attempts end with; the lines are the body of the response.
  unfoldable pub streamed : Answer → List Text → Option Failure → Parsed
  streamed (failure e) lines cause = silent e
  streamed response lines cause = parse_sse decode lines cause

  unfoldable pub send : Client → Option (List ℕ) → List Text → Option Failure → List ℕ × Parsed
  unfolding streamed
  send c none lines cause = ([], silent other)
  send c (some body) lines cause =
      let request = chat_request c (text "text/event-stream") body in
      let (waits, answer) = do_request_with_retry (λ n. outcome_of (http request n)) slept in
      (waits, streamed answer lines cause)

  -- ChatStream: the waits between its attempts, what it calls back and what it returns.
  unfoldable pub chat_stream : Client → ChatReq → List Text → Option Failure → List ℕ × Parsed
  unfolding send
  chat_stream c req lines cause = elim (prepare c req) [
    | some e ↦ ([], silent e)
    | none ↦ send c (marshal (payload_of (text "streaming") req)) lines cause
  ]

module _ (marshal : Text → Option (List ℕ)) (escape : Text → Text)
    (http : HttpRequest → HttpReply) where
  stop_answer : HttpReply → Option Failure
  stop_answer unreachable = some other
  stop_answer (answered status _) = if ltb status 200 || leb 300 status then some other else none

  abbrev pub stop_request : Client → Text → List ℕ → HttpRequest
  stop_request c task_id body = record {
    url = c.base_url ++ (text "/chat-messages/" ++ (escape task_id ++ text "/stop"));
    authorization = text "Bearer " ++ c.api_key;
    accept = [];
    body = body;
  }

  unfoldable pub send_stop : Client → Text → Option (List ℕ) → Option Failure
  unfolding stop_answer
  send_stop c task_id none = some other
  send_stop c task_id (some body) = stop_answer (http (stop_request c task_id body))

  -- Stop is one attempt; `marshal` writes the user.
  unfoldable pub stop : Client → Text → Text → Option Failure
  unfolding send_stop
  stop c task_id user =
      if is_empty (trim_space task_id)
      then some other
      else if is_empty (trim_space user)
      then some other
      else send_stop c task_id (marshal user)
