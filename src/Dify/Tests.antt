-- ===== src/Dify/Tests.antt =====
-- internal/dify: requests on small inputs.
use dify_game_gateway.Base.{
  is_empty, text_eq, insert, lookup, true, ℕ, [], ◌∷◌, ◌*◌, ◌≤◌, none, some, false, Text, text,
  List, Option, ◌≡◌, refl, arith, ◌==◌, if◌then◌else◌, trim_space, decimal,
}
use dify_game_gateway.Base.Int.{pos_part, pos}
use dify_game_gateway.Pipeline.Errors.{Failure, ok}
use dify_game_gateway.Retry.{wait_of, is_retryable}
use dify_game_gateway.Sse.{SseEvent, parse_sse}
use dify_game_gateway.Dify.{
  chat_request, Client, new_client, ChatReq, Payload, HttpRequest, HttpReply, answered, prepare,
  parse_retry_after, chat_stream,
}
use dify_game_gateway.Dify.Parameters.{
  ParametersPayload, missing, unexpected, get_parameters, check_parameter_contract, to_parameters,
  contract_warnings, items_of, form_items, form_item, defined_names, check_expected, check_defined,
}
use dify_game_gateway.Dify.Uploads.{
  UploadFileReq, Part, UploadRequest, UploadFileResult, ext_of, extension, upload_file,
  upload_content, send_file, upload_result, upload_parts,
}
use dify_game_gateway.Dify.Contract.{IsWarned, check_parameter_contract_lem}
use dify_game_gateway.Dify.Requests.{GetsThrough, wait_of-parse_retry_after, chat_stream-parse_sse}

new_client-slashes :
    new_client (text "http://dify/v1//") (text "k")
    ≡ record { base_url = text "http://dify/v1"; api_key = text "k" }
unfolding new_client
new_client-slashes = refl

wait_of-parse_retry_after_example :
    7 * 1_000_000_000 ≤ wait_of 1 (pos_part (parse_retry_after (text "7")))
unfolding decimal
wait_of-parse_retry_after_example = wait_of-parse_retry_after 1 7 (omega arith)

abbrev client : Client
client = record { base_url = text "http://dify/v1"; api_key = text "k" }

abbrev hello : ChatReq
hello = record {
  query = text "Hi";
  inputs = some [];
  user = text "hero:smith";
  conversation_id = [];
  files = [];
  auto_generate_name = none;
}

abbrev marshal : Payload → Option (List ℕ)
marshal p = some p.query

-- Busy once, and then a response.
abbrev http : HttpRequest → ℕ → HttpReply
http request n = if n == 1 then answered 503 [] else answered 200 []

abbrev asleep : ℕ → Option Failure
asleep n = none

abbrev decode : Text → Option SseEvent
decode s = none

through : (accept : Text) → GetsThrough (http (chat_request client accept (text "Hi"))) asleep 2
unfolding is_retryable
through accept = (
  omega arith,
  omega arith,
  (200, [], refl, omega arith, omega arith),
  λ n lower upper. let one : n ≡ 1 = omega arith in ((503, [], rw one refl, refl), refl),
)

chat_stream-parse_sse_example :
    (chat_stream marshal http asleep decode client hello (text "data: x" ∷ []) none).1
    ≡ parse_sse decode (text "data: x" ∷ []) none
unfolding prepare trim_space is_retryable
chat_stream-parse_sse_example =
    chat_stream-parse_sse marshal http asleep decode client hello (text "data: x" ∷ []) none
      (text "Hi") 2 refl refl (through (text "text/event-stream"))

-- A form with the fields `quest` and `place`.
abbrev form : ParametersPayload
form = record {
  user_input_form =
      ((
        text "text-input",
        record { label = []; variable = text "quest"; required = true; initial = [] },
      )
        ∷ [])
      ∷ ((
        text "select",
        record { label = []; variable = text "place"; required = false; initial = [] },
      )
          ∷ [])
      ∷ [];
  file_upload = record { enabled = false; number_limits = pos 0 };
  opening_statement = [];
}

abbrev well : HttpRequest → HttpReply
well request = answered 200 []

abbrev parameters : HttpRequest → Option ParametersPayload
parameters request = some form

contract_test :
    check_parameter_contract well parameters client
      (text " quest" ∷ text "mood" ∷ text "" ∷ [])
      true
    ≡ (none, missing (text "mood") ∷ unexpected (text "place") ∷ [])
unfolding check_parameter_contract get_parameters contract_warnings to_parameters items_of
    form_items form_item defined_names check_expected check_defined trim_space lookup insert text_eq
contract_test = refl

check_parameter_contract_lem_example :
    ((check_parameter_contract well parameters client (text " quest" ∷ text "mood" ∷ []) true).0
      ≡ none)
    × IsWarned
        (check_parameter_contract well parameters client (text " quest" ∷ text "mood" ∷ []) true).1
        (text "place")
        0
        1
unfolding trim_space to_parameters items_of form_items form_item get_parameters text_eq
check_parameter_contract_lem_example =
    check_parameter_contract_lem well parameters client (to_parameters form)
      (text " quest" ∷ text "mood" ∷ []) (text "place") refl refl

-- Of a file.
abbrev picture : UploadFileReq
picture = record {
  user = text "hero";
  filename = text "maps/old.town/map.png";
  reader = some (some (1 ∷ 2 ∷ []));
  content_type = [];
}

abbrev mime : Text → Text
mime ext = if is_empty ext then [] else text "image"

abbrev quoted : Text → Text
quoted name = name

abbrev multipart : List Part → Option (List ℕ × Text)
multipart parts = some (3 ∷ [], text "multipart/form-data")

abbrev created : UploadRequest → HttpReply
created request = answered 201 []

abbrev uploaded : UploadRequest → Option UploadFileResult
uploaded request = some (record { id = text "f1"; name = text "map.png"; size = pos 2 })

ext_of-picture : ext_of (text "maps/old.town/map.png") ≡ text ".png"
unfolding ext_of extension
ext_of-picture = refl

ext_of-folder : ext_of (text "maps/old.town/map") ≡ []
unfolding ext_of extension
ext_of-folder = refl

upload_file-picture :
    upload_file mime quoted multipart created uploaded client picture
    ≡ ok (record { id = text "f1"; name = text "map.png"; size = pos 2 })
unfolding upload_file upload_content send_file upload_result upload_parts trim_space
upload_file-picture = refl
