-- ===== src/DifyMock.antt =====
-- internal/difymock/difymock.go: the mock of the Dify API that the integration tests talk to. The JSON
-- library and the decoding of a path are parameters; net/http's routing is written out for the two
-- patterns of the mock, for paths that it does not have to clean.
pub mod Json
pub mod Attempts
pub mod Recovery
pub mod Script
pub mod Stops
pub mod Streaming
mod Tests
pub mod Upstream
use dify_game_gateway.Base.{
  ℕ, suc, [], ◌∷◌, ◌++◌, ◌+◌, none, some, true, false, Text, text, text_eq, List, Bool, Option,
  if◌then◌else◌, ◌||◌, ◌&&◌, not, ltb, leb, is_empty, drop_prefix,
}
use dify_game_gateway.Base.Int.{ℤ}

-- A Delay that is negative is as one of 0.
pub record Event : Type 0 where
  pub event : Text
  pub delay : ℕ
  pub answer : Text
  pub task_id : Text
  pub message_id : Text
  pub conversation_id : Text
  pub code : Text
  pub message : Text
  pub total_tokens : ℤ

-- A Status or a FailTimes that is negative is as one of 0.
pub record ChatBehavior : Type 0 where
  pub status : ℕ
  pub body : Text
  pub retry_after : Text
  pub fail_times : ℕ
  pub fail_forever : Bool
  pub hang : Bool
  pub events : List Event

-- What the decoder reads of the body of a chat; Go's zero values stand for what it does not have.
pub record ChatBody : Type 0 where
  pub query : Text
  pub user : Text
  pub conversation_id : Text
  pub response_mode : Text
  pub inputs : List (Text × Text)

pub record CapturedChat : Type 0 where
  pub authorization : Text
  pub accept : Text
  pub chat : ChatBody

pub record StopCall : Type 0 where
  pub task_id : Text
  pub user : Text

pub record Mock : Type 0 where
  pub api_key : Text
  pub behavior : ChatBehavior
  pub chat_n : ℕ
  pub chat_reqs : List CapturedChat
  pub stop_calls : List StopCall

-- The zero value of a behavior: it streams nothing.
abbrev pub silent_behavior : ChatBehavior
silent_behavior = record {
  status = 0;
  body = [];
  retry_after = [];
  fail_times = 0;
  fail_forever = false;
  hang = false;
  events = [];
}

unfoldable pub new_mock : Text → Mock
new_mock api_key = record {
  api_key = api_key;
  behavior = silent_behavior;
  chat_n = 0;
  chat_reqs = [];
  stop_calls = [];
}

unfoldable pub set_chat : ChatBehavior → Mock → Mock
set_chat b s = record s { behavior = b; chat_n = 0 }

-- A request that comes in, with its escaped path.
pub record Incoming : Type 0 where
  pub verb : Text
  pub path : Text
  pub authorization : Text
  pub accept : Text
  pub body : List ℕ

-- What the mock answers: a status with a Retry-After (empty if there is none) and a body, nothing until the
-- client goes, or a stream of writes with the status 200.
pub data Response : Type 0 where
  http_error : (status : ℕ) (retry_after body : Text) → Response
  success : (body : Text) → Response
  hanging : Response
  streaming : (writes : List Text) → Response

unfoldable pub authorized : Mock → Text → Bool
authorized s authorization =
    if is_empty s.api_key then true else text_eq authorization (text "Bearer " ++ s.api_key)

-- A field of the JSON object of an event; the tokens stand in metadata.usage.total_tokens.
pub data Value : Type 0 where
  str : Text → Value
  usage : ℤ → Value

abbrev pub Fields : Type 0
Fields = List (Text × Value)

abbrev pub with_text : Text → Text → Fields → Fields
with_text name value m = if is_empty value then m else (name, str value) ∷ m

-- The object of encodeEvent.
unfoldable pub fields_of : Event → Fields
fields_of ev =
    (text "event", str ev.event)
    ∷ with_text (text "task_id") ev.task_id (
        with_text (text "message_id") ev.message_id (
          with_text (text "conversation_id") ev.conversation_id (
            with_text (text "answer") ev.answer (
              with_text (text "code") ev.code (
                with_text (text "message") ev.message (
                  if text_eq ev.event (text "message_end")
                  then (text "metadata", usage ev.total_tokens) ∷ []
                  else []))))))

-- How the writes of a stream go: whether the request is cancelled in the delay of the n-th event, and whether its
-- write fails.
pub record Course : Type 0 where
  pub cancelled : ℕ → Bool
  pub write_fails : ℕ → Bool

-- json.Marshal of an object.
module _ (marshal : Fields → Text) where
  unfoldable pub encode_event : Event → Text
  unfolding fields_of
  encode_event ev = marshal (fields_of ev)

  -- The loop of streamSSE, from the n-th event and the task that the stream has.
  unfoldable pub stream_from : Course → ℕ → Text → List Event → List Text
  unfolding encode_event
  stream_from course n stream_task_id [] = []
  stream_from course n stream_task_id (ev ∷ events) =
      let task_id = if is_empty ev.task_id then stream_task_id else ev.task_id in
      let rest = stream_from course (suc n) task_id events in
      let line = text "data: " ++ (encode_event (record ev { task_id = task_id }) ++ text "\n\n") in
      if ltb 0 ev.delay && course.cancelled n
      then []
      else if course.write_fails n
      then []
      else line ∷ rest

  unfoldable pub stream_sse : Course → List Event → List Text
  unfolding stream_from
  stream_sse course events = stream_from course 0 [] events

-- How a chat is answered, by its number among those since SetChat.
unfoldable pub injects : ChatBehavior → ℕ → Bool
injects b attempt = leb 400 b.status && (b.fail_forever || leb attempt b.fail_times)

abbrev pub method_not_allowed : Response
method_not_allowed = http_error 405 [] (text "method not allowed")

abbrev pub unauthorized : Response
unauthorized = http_error 401 [] (text "{\"code\":\"unauthorized\"}")

abbrev pub invalid_param : Response
invalid_param = http_error 400 [] (text "{\"code\":\"invalid_param\"}")

abbrev pub is_post : Incoming → Bool
is_post r = text_eq r.verb (text "POST")

module _ (marshal : Fields → Text) (decode_chat : List ℕ → ChatBody) where
  unfoldable pub captured : Incoming → CapturedChat
  captured r = record {
    authorization = r.authorization;
    accept = r.accept;
    chat = decode_chat r.body;
  }

  unfoldable pub answer_chat : Course → ChatBehavior → ℕ → Response
  unfolding injects stream_sse
  answer_chat course b attempt =
      if injects b attempt
      then http_error b.status b.retry_after b.body
      else if b.hang
      then hanging
      else streaming (stream_sse marshal course b.events)

  -- The writer is an http.Flusher, as that of net/http is.
  unfoldable pub handle_chat : Course → Incoming → Mock → Response × Mock
  unfolding captured answer_chat authorized
  handle_chat course r s =
      let chat = captured r in
      let s' = record s { chat_reqs = s.chat_reqs ++ chat ∷ []; chat_n = s.chat_n + 1 } in
      if not (is_post r)
      then (method_not_allowed, s)
      else if not (authorized s r.authorization)
      then (unauthorized, s')
      else if is_empty chat.chat.query || is_empty chat.chat.user
      then (invalid_param, s')
      else (answer_chat course s.behavior (s.chat_n + 1), s')

-- strings.TrimSuffix; nothing if the text does not end so.
unfoldable pub drop_suffix : Text → Text → Option Text
drop_suffix suffix [] = if is_empty suffix then some [] else none
drop_suffix suffix (c ∷ s) =
    let rest = drop_suffix suffix s in
    if text_eq suffix (c ∷ s)
    then some []
    else elim rest [ some front ↦ some (c ∷ front) | none ↦ none ]

abbrev pub not_found : Response
not_found = http_error 404 [] (text "404 page not found")

-- `unescape` is url.PathUnescape, and `decode_user` what the decoder reads of the user.
module _ (unescape : Text → Option Text) (decode_user : List ℕ → Text) where
  unfoldable pub record_stop : Incoming → Mock → Option Text → Response × Mock
  record_stop r s none = (invalid_param, s)
  record_stop r s (some task_id) =
      let call : StopCall = record { task_id = task_id; user = decode_user r.body } in
      (
        success (text "{\"result\":\"success\"}"),
        record s { stop_calls = s.stop_calls ++ call ∷ [] },
      )

  unfoldable pub stop_task : Incoming → Mock → Option Text → Response × Mock
  unfolding record_stop
  stop_task r s none = (not_found, s)
  stop_task r s (some enc) = if is_empty enc then (not_found, s) else record_stop r s (unescape enc)

  -- The rest of the path is what the route leaves of it.
  unfoldable pub handle_stop : Text → Incoming → Mock → Response × Mock
  unfolding stop_task drop_suffix authorized
  handle_stop rest r s =
      if not (is_post r)
      then (method_not_allowed, s)
      else if not (authorized s r.authorization)
      then (unauthorized, s)
      else stop_task r s (drop_suffix (text "/stop") rest)

-- `redirect` is what the http.ServeMux itself answers to a path that is not clean.
module _ (marshal : Fields → Text) (decode_chat : List ℕ → ChatBody) (unescape : Text → Option Text)
    (decode_user : List ℕ → Text) (redirect : Text → Option Response) where
  unfoldable pub routed : Incoming → Mock → Option Text → Response × Mock
  unfolding handle_stop
  routed r s none = (not_found, s)
  routed r s (some rest) = handle_stop unescape decode_user rest r s

  unfoldable pub sanitized : Incoming → Mock → Option Response → Response × Mock
  unfolding routed
  sanitized r s (some elsewhere) = (elsewhere, s)
  sanitized r s none = routed r s (drop_prefix (text "/chat-messages/") r.path)

  -- The routes of New.
  unfoldable pub serve : Course → Incoming → Mock → Response × Mock
  unfolding sanitized handle_chat
  serve course r s =
      if text_eq r.path (text "/chat-messages")
      then handle_chat marshal decode_chat course r s
      else sanitized r s (redirect r.path)
