-- ===== src/Sse/Tests.antt =====
-- internal/dify/sse.go: a stream on small inputs.
use dify_game_gateway.Base.{Text, text, text_eq, List, [], ◌∷◌, Option, none, some, if◌then◌else◌}
use dify_game_gateway.Base.Int.{pos}
use dify_game_gateway.Pipeline.Errors.{deadline_exceeded}
use dify_game_gateway.Sse.{SseEvent, parse_sse}
use dify_game_gateway.Sse.Calls.{Reports, parse_sse-tokens}

abbrev said : Text → SseEvent
said answer = record {
  event = text "message";
  task_id = text "t1";
  message_id = text "m1";
  conversation_id = text "c1";
  answer = answer;
  code = [];
  message = [];
  total_tokens = pos 0;
}

abbrev over : SseEvent
over = record (said []) { event = text "message_end"; total_tokens = pos 7 }

-- A decoder for the data of this test.
abbrev decode : Text → Option SseEvent
decode payload =
    if text_eq payload (text "hi")
    then some (said (text "hi"))
    else if text_eq payload (text "end")
    then some over
    else none

abbrev lines : List Text
lines =
    text ": comment"
    ∷ text "data: hi"
    ∷ []
    ∷ text "data:hi"
    ∷ text "data: end"
    ∷ text "data: bad"
    ∷ []

parse_sse-tokens_example :
    Reports decode (pos 0) lines (parse_sse decode lines (some deadline_exceeded))
parse_sse-tokens_example = parse_sse-tokens decode lines (some deadline_exceeded)
