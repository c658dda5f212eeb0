-- ===== src/Dify/Parameters.antt =====
-- internal/dify/api.go, the parameters of an App: GetParameters and CheckParameterContract. HTTP and the
-- decoding of JSON are parameters. A Go map is ranged over in the order of its list, which stands for
-- any order.
use dify_game_gateway.Base.{
  [], ◌∷◌, ◌++◌, none, some, Text, text, List, Bool, Option, if◌then◌else◌, ◌||◌, ltb, leb,
  is_empty, is_some, trim_space, insert, lookup,
}
use dify_game_gateway.Base.Int.{ℤ}
use dify_game_gateway.Pipeline.Errors.{Failure, other, Result, ok, err}
use dify_game_gateway.Dify.{Client, HttpRequest, HttpReply, unreachable, answered}

pub record FormItem : Type 0 where
  pub label : Text
  pub variable : Text
  pub required : Bool
  pub initial : Text

pub record ParameterFormItem : Type 0 where
  pub kind : Text
  pub label : Text
  pub variable : Text
  pub required : Bool
  pub initial : Text

-- The settings of images.
pub record FileUploadConfig : Type 0 where
  pub enabled : Bool
  pub number_limits : ℤ

pub record ParametersPayload : Type 0 where
  pub user_input_form : List (List (Text × FormItem))
  pub file_upload : FileUploadConfig
  pub opening_statement : Text

pub record Parameters : Type 0 where
  pub user_input_form : List ParameterFormItem
  pub file_upload : FileUploadConfig
  pub opening_statement : Text

unfoldable pub form_item : Text → FormItem → ParameterFormItem
form_item kind item = record {
  kind = kind;
  label = item.label;
  variable = item.variable;
  required = item.required;
  initial = item.initial;
}

unfoldable pub form_items : List (Text × FormItem) → List ParameterFormItem
unfolding form_item
form_items [] = []
form_items ((kind, item) ∷ wrapped) = form_item kind item ∷ form_items wrapped

unfoldable pub items_of : List (List (Text × FormItem)) → List ParameterFormItem
unfolding form_items
items_of [] = []
items_of (wrapped ∷ form) = form_items wrapped ++ items_of form

unfoldable pub to_parameters : ParametersPayload → Parameters
unfolding items_of
to_parameters p = record {
  user_input_form = items_of p.user_input_form;
  file_upload = p.file_upload;
  opening_statement = p.opening_statement;
}

unfoldable pub parameters_request : Client → HttpRequest
parameters_request c = record {
  url = c.base_url ++ text "/parameters";
  authorization = text "Bearer " ++ c.api_key;
  accept = text "application/json";
  body = [];
}

-- A Go map[string]struct{}.
abbrev pub Names : Type 0
Names = List (Text × Unit)

abbrev pub has : Names → Text → Bool
has names v = is_some (lookup v names)

-- What the client of the check is warned of.
pub data Warning : Type 0 where
  missing unexpected : (variable : Text) → Warning

unfoldable pub defined_names : Names → List ParameterFormItem → Names
defined_names names [] = names
defined_names names (item ∷ items) =
    defined_names (if is_empty item.variable then names else insert item.variable tt names) items

-- The loop over the expected variables: its warnings, and the variables as a set.
unfoldable pub check_expected : Names → Names → List Text → List Warning × Names
check_expected defined expected [] = ([], expected)
check_expected defined expected (v ∷ vs) =
    let variable = trim_space v in
    let next = if is_empty variable then expected else insert variable tt expected in
    let (warnings, all) = check_expected defined next vs in
    if is_empty variable || has defined variable
    then (warnings, all)
    else (missing variable ∷ warnings, all)

unfoldable pub check_defined : Names → Names → List Warning
check_defined expected [] = []
check_defined expected ((variable, _) ∷ defined) =
    let rest = check_defined expected defined in
    if has expected variable then rest else unexpected variable ∷ rest

unfoldable pub contract_warnings : Parameters → List Text → List Warning
unfolding defined_names check_expected check_defined
contract_warnings params variables =
    let defined = defined_names [] params.user_input_form in
    let (warnings, expected) = check_expected defined [] variables in
    warnings ++ check_defined expected defined

-- `decode` is what the decoder makes of the body of the response.
module _ (http : HttpRequest → HttpReply) (decode : HttpRequest → Option ParametersPayload) where
  parameters_of : Option ParametersPayload → Result Parameters
  unfolding to_parameters
  parameters_of none = err other
  parameters_of (some raw) = ok (to_parameters raw)

  read_parameters : HttpRequest → HttpReply → Result Parameters
  unfolding parameters_of
  read_parameters request unreachable = err other
  read_parameters request (answered status _) =
      if ltb status 200 || leb 300 status then err other else parameters_of (decode request)

  unfoldable pub get_parameters : Client → Result Parameters
  unfolding parameters_request read_parameters
  get_parameters c = let request = parameters_request c in read_parameters request (http request)

  contract_checked : Bool → List Text → Result Parameters → Option Failure × List Warning
  unfolding contract_warnings
  contract_checked warn variables (err e) = (some e, [])
  contract_checked warn variables (ok params) =
      if warn then (none, contract_warnings params variables) else (none, [])

  -- CheckParameterContract, where `warn` is whether it is given a function to call: its error and the
  -- warnings that it calls it with.
  unfoldable pub check_parameter_contract :
      Client → List Text → Bool → Option Failure × List Warning
  unfolding get_parameters contract_checked
  check_parameter_contract c variables warn = contract_checked warn variables (get_parameters c)
