-- ===== src/Sse.antt =====
-- internal/dify/sse.go, parseSSE: the stream of a chat, line by line. The lines are those of
-- bufio.Scanner (`Scanning`), and `cause` is the error that its reading ended with, which stays visible in the error
-- that wraps it. The decoding of JSON is a parameter. What the stream calls back is the row that `Pipeline` takes.
pub mod Calls
pub mod Scanning
mod Tests
use dify_game_gateway.Base.{
  ℕ, Text, text, text_eq, Bool, true, false, List, [], ◌∷◌, ◌++◌, Option, none, some, if◌then◌else◌,
  ◌||◌, not, is_empty, trim_space, length, drop,
}
use dify_game_gateway.Base.Int.{ℤ, pos}
use dify_game_gateway.Moderation.{has_prefix}
use dify_game_gateway.Pipeline.Errors.{
  Failure, message_replaced, stream_failed, stream_incomplete, other,
}
use dify_game_gateway.Pipeline.Effects.{StreamEvent, on_event, on_delta}

pub record SseEvent : Type 0 where
  pub event : Text
  pub task_id : Text
  pub message_id : Text
  pub conversation_id : Text
  pub answer : Text
  pub code : Text
  pub message : Text
  pub total_tokens : ℤ

-- The field Answer stays empty in a stream.
pub record ChatResult : Type 0 where
  pub conversation_id : Text
  pub message_id : Text
  pub total_tokens : ℤ

pub record Parsing : Type 0 where
  pub result : ChatResult
  pub event_notified : Bool

pub record Parsed : Type 0 where
  pub calls : List StreamEvent
  pub result : ChatResult
  pub error : Option Failure

unfoldable pub or_text : Text → Text → Text
or_text a b = if is_empty a then b else a

-- The data of a line, if it carries any.
unfoldable pub data_of : Text → Option Text
data_of raw =
    let line = trim_space raw in
    let payload = trim_space (drop 5 line) in
    if not (has_prefix (text "data:") line)
    then none
    else if is_empty payload || text_eq payload (text "[DONE]")
    then none
    else some payload

-- What an event is for the loop: a part of the answer, an end, or nothing.
pub data Kind : Type 0 where
  message_kind end_kind replace_kind error_kind ignored_kind : Kind

unfoldable pub kind_of : Text → Kind
kind_of event =
    if text_eq event (text "message") || text_eq event (text "agent_message")
    then message_kind
    else if text_eq event (text "message_end")
    then end_kind
    else if text_eq event (text "message_replace")
    then replace_kind
    else if text_eq event (text "error")
    then error_kind
    else ignored_kind

unfoldable pub finish : Parsing → Option Failure → Parsed
finish s error = record { calls = []; result = s.result; error = error }

unfoldable pub before : List StreamEvent → Parsed → Parsed
before calls p = record p { calls = calls ++ p.calls }

unfoldable pub deltas_of : SseEvent → List StreamEvent
deltas_of e = if is_empty e.answer then [] else on_delta e.answer ∷ []

unfoldable pub message_calls : Parsing → SseEvent → List StreamEvent
message_calls s e = (if s.event_notified then [] else on_event e.task_id ∷ []) ++ deltas_of e

unfoldable pub message_state : Parsing → SseEvent → Parsing
message_state s e = record {
  result = record {
    conversation_id = or_text s.result.conversation_id e.conversation_id;
    message_id = or_text s.result.message_id e.message_id;
    total_tokens = s.result.total_tokens;
  };
  event_notified = true;
}

unfoldable pub ended : Parsing → SseEvent → Parsed
ended s e = record {
  calls = [];
  result = record {
    conversation_id = or_text e.conversation_id s.result.conversation_id;
    message_id = or_text e.message_id s.result.message_id;
    total_tokens = e.total_tokens;
  };
  error = none;
}

module _ (decode : Text → Option SseEvent) where
  -- The decoded data of a line: nothing to do, no JSON, or an event.
  pub data Read : Type 0 where
    skipped : Read
    undecodable : Read
    event_read : SseEvent → Read

  unfoldable pub read_data : Option SseEvent → Read
  read_data none = undecodable
  read_data (some e) = event_read e

  unfoldable pub read_line : Text → Read
  unfolding read_data
  read_line raw = elim (data_of raw) [ some payload ↦ read_data (decode payload) | none ↦ skipped ]

  unfoldable pub parse_from : Parsing → List Text → Option Failure → Parsed
  parse_from s [] none = finish s (some stream_incomplete)
  parse_from s [] (some e) = finish s (some e)
  parse_from s (raw ∷ lines) cause = elim (read_line raw) [
    | skipped ↦ parse_from s lines cause
    | undecodable ↦ finish s (some other)
    | event_read e ↦ elim (kind_of e.event) [
      | message_kind ↦ before (message_calls s e) (parse_from (message_state s e) lines cause)
      | end_kind ↦ ended s e
      | replace_kind ↦ finish s (some (message_replaced e.answer))
      | error_kind ↦ finish s (some (stream_failed e.code))
      | ignored_kind ↦ parse_from s lines cause
    ]
  ]

  abbrev pub start : Parsing
  start = record {
    result = record { conversation_id = []; message_id = []; total_tokens = pos 0 };
    event_notified = false;
  }

  unfoldable pub parse_sse : List Text → Option Failure → Parsed
  unfolding parse_from
  parse_sse lines cause = parse_from start lines cause
