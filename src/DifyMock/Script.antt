-- ===== src/DifyMock/Script.antt =====
-- internal/difymock/difymock.go: what a script of events is meant to make the client tell its caller.
use dify_game_gateway.Base.{
  [], ◌∷◌, ◌++◌, none, some, false, Text, text, text_eq, List, All, utf8_length, ◌≤◌, Option, ◌≡◌,
  if◌then◌else◌, is_empty,
}
use dify_game_gateway.Base.Int.{ℤ}
use dify_game_gateway.Pipeline.Errors.{Failure, message_replaced, stream_failed, stream_incomplete}
use dify_game_gateway.Pipeline.Effects.{StreamEvent, on_event, on_delta}
use dify_game_gateway.Sse.{
  Parsed, kind_of, message_kind, end_kind, replace_kind, error_kind, ignored_kind,
}
use dify_game_gateway.Sse.Scanning.{max_token_size}
use dify_game_gateway.DifyMock.{Event, Course}

-- A course on which the client stays and each write succeeds.
abbrev pub steady : Course
steady = record { cancelled = λ n. false; write_fails = λ n. false }

abbrev pub joined : List Text → Text
joined [] = []
joined (s ∷ writes) = s ++ joined writes

abbrev pub Ending : Type 0
Ending = Option Event

-- The first event of a script that ends its stream.
abbrev pub ending : List Event → Ending
ending [] = none
ending (e ∷ es) = elim (kind_of e.event) [
  | message_kind ↦ ending es
  | ignored_kind ↦ ending es
  | end_kind ↦ some e
  | replace_kind ↦ some e
  | error_kind ↦ some e
]

abbrev pub said : Event → List StreamEvent
said e = if is_empty e.answer then [] else on_delta e.answer ∷ []

-- The answers of the messages before that.
abbrev pub answers : List Event → List StreamEvent
answers [] = []
answers (e ∷ es) = elim (kind_of e.event) [
  | message_kind ↦ said e ++ answers es
  | ignored_kind ↦ answers es
  | end_kind ↦ []
  | replace_kind ↦ []
  | error_kind ↦ []
]

-- The task of the first message, its own or the last one named before it, and then the answers.
abbrev pub told : Text → List Event → List StreamEvent
told task_id [] = []
told task_id (e ∷ es) =
    let task : Text = if is_empty e.task_id then task_id else e.task_id in
    elim (kind_of e.event) [
      | message_kind ↦ on_event task ∷ (said e ++ answers es)
      | ignored_kind ↦ told task es
      | end_kind ↦ []
      | replace_kind ↦ []
      | error_kind ↦ []
    ]

abbrev pub error_of : Option Failure → Ending → Option Failure
error_of none none = some stream_incomplete
error_of (some cause) none = some cause
error_of cause (some e) = elim (kind_of e.event) [
  | end_kind ↦ none
  | replace_kind ↦ some (message_replaced e.answer)
  | error_kind ↦ some (stream_failed e.code)
  | message_kind ↦ none
  | ignored_kind ↦ none
]

abbrev pub tokens_at : ℤ → Ending → ℤ
tokens_at tokens none = tokens
tokens_at tokens (some e) = if text_eq e.event (text "message_end") then e.total_tokens else tokens

-- What the mock writes for each event fits the scanner of the client.
abbrev pub FitsScanner : List Text → Type 0
FitsScanner writes = All (λ w. utf8_length w ≤ max_token_size) writes

-- A parse that tells this and ends so.
abbrev pub Tells : List StreamEvent → Option Failure → ℤ → Parsed → Type 0
Tells calls error tokens p =
    (p.calls ≡ calls) × (p.error ≡ error) × (p.result.total_tokens ≡ tokens)
