-- ===== src/DifyMock/Tests.antt =====
-- internal/difymock/difymock.go: the mock on small inputs, with a plain notation in the place of JSON.
use dify_game_gateway.Base.{
  trim_space, utf8_length, ℕ, [], ◌∷◌, ◌++◌, ◌+◌, ◌-◌, none, some, false, Text, text, text_eq, List,
  Option, ◌≡◌, refl, arith, if◌then◌else◌, ◌==◌, Lacks, All-append, append_assoc, drop,
}
use dify_game_gateway.Base.Int.{ℤ, pos, negsuc}
use dify_game_gateway.Pipeline.Effects.{on_event, on_delta}
use dify_game_gateway.Sse.{kind_of, SseEvent, parse_sse, kind_of}
use dify_game_gateway.Sse.Scanning.{braced, scan_lines}
use dify_game_gateway.Dify.{Client, ChatReq, Payload, prepare, chat_stream, chat_request, stop}
use dify_game_gateway.Retry.{is_retryable}
use dify_game_gateway.Pipeline.Errors.{Failure}
use dify_game_gateway.DifyMock.Upstream.{answer}
use dify_game_gateway.DifyMock.Recovery
use dify_game_gateway.DifyMock.Recovery.{Fits, scanned, chat_stream-mocked}
use dify_game_gateway.DifyMock.Stops
use dify_game_gateway.DifyMock.Stops.{stop_of, stop-recorded}
use dify_game_gateway.DifyMock.{
  ChatBody, ChatBehavior, Mock, set_chat, new_mock, authorized, Event, stream_sse, Response,
}
use dify_game_gateway.DifyMock.Json.{Json, event_of}
use dify_game_gateway.DifyMock.Script.{steady, joined, Tells, FitsScanner}
use dify_game_gateway.DifyMock.Streaming.{parse_sse-stream_sse}

infixl 5 ◌>>=◌
abbrev ◌>>=◌ {ℓ κ} : {A : Type ℓ} {B : Type κ} → Option A → (A → Option B) → Option B
none >>= f = none
some a >>= f = f a

-- A text in runes from 11 on, closed by 1.
abbrev noted : Text → Text
noted [] = 1 ∷ []
noted (c ∷ s) = (c + 11) ∷ noted s

read_noted : Text → Option (Text × Text)
read_noted [] = none
read_noted (c ∷ s) =
    let rest = read_noted s in
    if c == 1
    then some ([], s)
    else elim rest [ none ↦ none | some (t, after) ↦ some ((c - 11) ∷ t, after) ]

read_noted-noted : (s rest : Text) → read_noted (noted s ++ rest) ≡ some (s, rest)
unfolding read_noted
read_noted-noted [] rest = refl
read_noted-noted (c ∷ s) rest =
    let back : c + 11 - 11 ≡ c = omega arith in ground (arith, read_noted-noted s rest)

abbrev number : ℤ → Text
number (pos n) = 2 ∷ (n + 11) ∷ []
number (negsuc n) = 3 ∷ (n + 11) ∷ []

read_number : Text → Option ℤ
read_number (sign ∷ n ∷ rest) = some (if sign == 2 then pos (n - 11) else negsuc (n - 11))
read_number (sign ∷ []) = none
read_number [] = none

read_number-number : (n : ℤ) (rest : Text) → read_number (number n ++ rest) ≡ some n
unfolding read_number
read_number-number (pos n) rest = ground arith
read_number-number (negsuc n) rest = ground arith

abbrev plain : SseEvent → Text
plain e =
    noted e.event
    ++ (noted e.task_id
        ++ (noted e.message_id
            ++ (noted e.conversation_id
                ++ (noted e.answer
                    ++ (noted e.code ++ (noted e.message ++ number e.total_tokens))))))

read_plain : Text → Option SseEvent
read_plain s = do
  (event, s1) ← read_noted s
  (task_id, s2) ← read_noted s1
  (message_id, s3) ← read_noted s2
  (conversation_id, s4) ← read_noted s3
  (answer, s5) ← read_noted s4
  (code, s6) ← read_noted s5
  (message, s7) ← read_noted s6
  total_tokens ← read_number s7
  some (record {
    event = event;
    task_id = task_id;
    message_id = message_id;
    conversation_id = conversation_id;
    answer = answer;
    code = code;
    message = message;
    total_tokens = total_tokens;
  })

read_plain-plain : (e : SseEvent) (rest : Text) → read_plain (plain e ++ rest) ≡ some e
unfolding read_plain
read_plain-plain e rest = simp (append_assoc, read_noted-noted, read_number-number)

noted-Lacks : (s : Text) → Lacks b'\n' (noted s)
noted-Lacks [] = (refl, tt)
noted-Lacks (c ∷ s) = (ground arith, noted-Lacks s)

number-Lacks : (n : ℤ) → Lacks b'\n' (number n)
number-Lacks (pos n) = (refl, (ground arith, tt))
number-Lacks (negsuc n) = (refl, (ground arith, tt))

both : (s t : Text) → Lacks b'\n' s → Lacks b'\n' t → Lacks b'\n' (s ++ t)
both s t = All-append (λ (c : ℕ). (c == b'\n') ≡ false) s t

plain-Lacks : (e : SseEvent) → Lacks b'\n' (plain e)
plain-Lacks e = both (noted e.event) _ (noted-Lacks e.event) (
    both (noted e.task_id) _ (noted-Lacks e.task_id) (
      both (noted e.message_id) _ (noted-Lacks e.message_id) (
        both (noted e.conversation_id) _ (noted-Lacks e.conversation_id) (
          both (noted e.answer) _ (noted-Lacks e.answer) (
            both (noted e.code) _ (noted-Lacks e.code)
              (both (noted e.message) _ (noted-Lacks e.message) (number-Lacks e.total_tokens)))))))

plain_json : Json
plain_json = record {
  marshal = λ m. braced (plain (event_of m));
  decode = λ s. read_plain (drop 1 s);
  inner = λ m. plain (event_of m);
  marshal_braced = λ m. refl;
  one_line =
      λ m. (refl, both (plain (event_of m)) (b'}' ∷ []) (plain-Lacks (event_of m)) (refl, tt));
  decode-marshal = λ m. read_plain-plain (event_of m) (b'}' ∷ []);
}

abbrev event : Text → Text → Text → Event
event kind task_id answer = record {
  event = kind;
  delay = 0;
  answer = answer;
  task_id = task_id;
  message_id = [];
  conversation_id = text "c1";
  code = [];
  message = [];
  total_tokens = pos 7;
}

abbrev script : List Event
script =
    event (text "ping") (text "t1") []
    ∷ event (text "message") [] (text "Hel")
    ∷ event (text "message") [] (text "lo")
    ∷ event (text "message_end") [] []
    ∷ event (text "message") [] (text "late")
    ∷ []

script-FitsScanner : FitsScanner (stream_sse plain_json.marshal steady script)
unfolding stream_sse utf8_length plain_json text_eq
script-FitsScanner = (omega arith, (omega arith, (omega arith, (omega arith, (omega arith, tt)))))

parse_sse-stream_sse_example :
    Tells (on_event (text "t1") ∷ on_delta (text "Hel") ∷ on_delta (text "lo") ∷ []) none (pos 7) (
      parse_sse plain_json.decode
        (scan_lines (joined (stream_sse plain_json.marshal steady script)) none).0
        (scan_lines (joined (stream_sse plain_json.marshal steady script)) none).1)
unfolding kind_of text_eq
parse_sse-stream_sse_example = parse_sse-stream_sse plain_json script none script-FitsScanner

abbrev client : Client
client = record { base_url = text "http://mock"; api_key = text "k" }

abbrev hello : ChatReq
hello = record {
  query = text "Hi";
  inputs = some [];
  user = text "hero:smith";
  conversation_id = [];
  files = [];
  auto_generate_name = none;
}

abbrev query_alone : Payload → Option (List ℕ)
query_alone p = some p.query

abbrev chat_body : List ℕ → ChatBody
chat_body body = record {
  query = body;
  user = body;
  conversation_id = [];
  response_mode = [];
  inputs = [];
}

abbrev same_text : Text → Option Text
same_text s = some s

abbrev user_of : List ℕ → Text
user_of body = body

abbrev straight : Text → Option Response
straight path = none

abbrev asleep : ℕ → Option Failure
asleep n = none

-- Two attempts are refused with 503.
abbrev shaky : ChatBehavior
shaky = record {
  status = 503;
  body = [];
  retry_after = [];
  fail_times = 2;
  fail_forever = false;
  hang = false;
  events = script;
}

abbrev mock : Mock
mock = set_chat shaky (new_mock (text "k"))

hello-Fits :
    Fits plain_json chat_body same_text user_of straight query_alone asleep client hello
      (text "Hi")
      mock
unfolding prepare trim_space authorized text_eq is_retryable set_chat new_mock chat_request
hello-Fits = record {
  complete = refl;
  written = refl;
  is_fresh = ((refl, refl, refl, refl, refl), refl);
  busy = refl;
  short = script-FitsScanner;
  stays = refl;
  awake = λ n. refl;
}

chat_stream-mocked_example :
    Tells
      (on_event (text "t1") ∷ on_delta (text "Hel") ∷ on_delta (text "lo") ∷ [])
      none
      (pos 7)
      (chat_stream query_alone
        (Recovery.mocked plain_json chat_body same_text user_of straight query_alone asleep client
          (text "Hi")
          mock)
        asleep
        plain_json.decode
        client
        hello
        (scanned plain_json chat_body same_text user_of straight query_alone asleep mock).0
        (scanned plain_json chat_body same_text user_of straight query_alone asleep mock).1).1
unfolding kind_of text_eq set_chat
chat_stream-mocked_example =
    chat_stream-mocked plain_json chat_body same_text user_of straight query_alone asleep client
      hello (text "Hi") mock hello-Fits

abbrev bytes : Text → Option (List ℕ)
bytes s = some s

abbrev unchanged : Text → Text
unchanged s = s

stop-recorded_example :
    (stop bytes unchanged
        (Stops.mocked plain_json.marshal chat_body same_text user_of straight steady bytes unchanged
          client mock)
        client
        (text "t1")
        (text "hero")
      ≡ none)
    × ((answer plain_json.marshal chat_body same_text user_of straight steady
          (stop_of plain_json.marshal chat_body same_text user_of straight steady bytes unchanged
            client mock
            (text "t1")
            (text "hero"))
          mock).1.stop_calls
        ≡ record { task_id = text "t1"; user = text "hero" } ∷ [])
unfolding trim_space authorized text_eq set_chat new_mock
stop-recorded_example =
    stop-recorded plain_json.marshal chat_body same_text user_of straight steady bytes unchanged
      client mock (text "t1") (text "hero") (text "hero") refl refl refl refl refl refl refl refl
