-- ===== src/DifyMock/Json.antt =====
-- internal/difymock/difymock.go, encodeEvent, and the sseEvent of internal/dify/sse.go: an event is read as it
-- was written. The JSON library is an interface.
use dify_game_gateway.Base.{
  [], ◌∷◌, some, Text, text, text_eq, Option, ◌≡◌, refl, arith, if◌then◌else◌, Lacks,
}
use dify_game_gateway.Base.Int.{ℤ, pos}
use dify_game_gateway.Sse.{SseEvent, or_text}
use dify_game_gateway.Sse.Scanning.{braced}
use dify_game_gateway.DifyMock.{Event, str, usage, Fields, with_text, fields_of}

-- A string field of a struct, empty if the object does not have it.
abbrev pub text_field : Text → Fields → Text
text_field name [] = []
text_field name ((key, str v) ∷ m) = if text_eq key name then v else text_field name m
text_field name ((key, usage _) ∷ m) = text_field name m

abbrev pub usage_field : Fields → ℤ
usage_field [] = pos 0
usage_field ((_, str _) ∷ m) = usage_field m
usage_field ((_, usage n) ∷ m) = n

-- The struct that an object is decoded to.
abbrev pub event_of : Fields → SseEvent
event_of m = record {
  event = text_field (text "event") m;
  task_id = text_field (text "task_id") m;
  message_id = text_field (text "message_id") m;
  conversation_id = text_field (text "conversation_id") m;
  answer = text_field (text "answer") m;
  code = text_field (text "code") m;
  message = text_field (text "message") m;
  total_tokens = usage_field m;
}

-- What the mock and the client rely on of encoding/json: an object is written in one line, between braces, and a
-- struct is read of it field by field.
pub record Json : Type 0 where
  pub marshal : Fields → Text
  pub decode : Text → Option SseEvent
  pub inner : Fields → Text
  pub marshal_braced : (m : Fields) → marshal m ≡ braced (inner m)
  pub one_line : (m : Fields) → Lacks b'\n' (marshal m)
  pub decode-marshal : (m : Fields) → decode (marshal m) ≡ some (event_of m)

text_field-with_text :
    (name key value : Text) (m : Fields)
    → text_field name (with_text key value m)
      ≡ (if text_eq key name then or_text value (text_field name m) else text_field name m)
unfolding or_text
text_field-with_text name key [] m = ground arith
text_field-with_text name key (c ∷ value) m = refl

usage_field-with_text :
    (key value : Text) (m : Fields) → usage_field (with_text key value m) ≡ usage_field m
usage_field-with_text key [] m = refl
usage_field-with_text key (c ∷ value) m = refl

or_text-nil : (v : Text) → or_text v [] ≡ v
unfolding or_text
or_text-nil [] = refl
or_text-nil (c ∷ v) = refl

-- The tokens that an event carries: those of a message_end.
abbrev pub tokens_of : Event → ℤ
tokens_of ev = if text_eq ev.event (text "message_end") then ev.total_tokens else pos 0

-- The client's view of an event.
abbrev pub seen_as : Event → SseEvent
seen_as ev = record {
  event = ev.event;
  task_id = ev.task_id;
  message_id = ev.message_id;
  conversation_id = ev.conversation_id;
  answer = ev.answer;
  code = ev.code;
  message = ev.message;
  total_tokens = tokens_of ev;
}

tail_field :
    (name : Text) (ev : Event)
    → text_field name (
        if text_eq ev.event (text "message_end")
        then (text "metadata", usage ev.total_tokens) ∷ []
        else [])
      ≡ []
tail_field name ev = ground arith

tail_usage :
    (ev : Event)
    → usage_field (
        if text_eq ev.event (text "message_end")
        then (text "metadata", usage ev.total_tokens) ∷ []
        else [])
      ≡ tokens_of ev
tail_usage ev = ground arith

ruleset fields = (text_field-with_text, usage_field-with_text, or_text-nil, tail_field, tail_usage)

-- An event is read as it was written.
pub event_of-fields_of : (ev : Event) → event_of (fields_of ev) ≡ seen_as ev
unfolding fields_of text_eq
event_of-fields_of ev = simp fields
