-- ===== src/Dify/Contract.antt =====
-- internal/dify/api.go: what CheckParameterContract warns of.
use dify_game_gateway.Base.{
  zero-add, ℕ, [], ◌∷◌, none, true, false, Text, List, Bool, Option, ◌≡◌, refl, ap, ◌∙◌,
  if◌then◌else◌, ◌||◌, ◌&&◌, not, ltb, arith, is_empty, trim_space, insert, lookup, text_eq,
  text_eq_iff, lookup-insert, text_eq_refl, DistinctKeys, AbsentKey, insert-DistinctKeys,
  eq_of_text_eq, map, Bool-cases, inl, inr, subst,
}
use dify_game_gateway.Pipeline.Tally.{count, count-append}
use dify_game_gateway.Pipeline.Errors.{ok}
use dify_game_gateway.Dify.{Client, HttpRequest, HttpReply}
use dify_game_gateway.Dify.Parameters.{
  ParameterFormItem, Parameters, ParametersPayload, Names, has, Warning, missing, unexpected,
  defined_names, check_expected, check_defined, contract_warnings, get_parameters,
  check_parameter_contract,
}

abbrev pub is_missing : Text → Warning → Bool
is_missing v (missing w) = text_eq w v
is_missing v (unexpected w) = false

abbrev pub is_unexpected : Text → Warning → Bool
is_unexpected v (missing w) = false
is_unexpected v (unexpected w) = text_eq w v

-- How often the operator names the variable, spaces aside.
abbrev pub named : Text → List Text → ℕ
named v variables = count (text_eq v) (map trim_space variables)

-- Whether a field of the form fills the variable.
abbrev pub fills : Text → List ParameterFormItem → Bool
fills v [] = false
fills v (item ∷ items) = text_eq item.variable v || fills v items

has-insert : (k j : Text) (m : Names) → has (insert k tt m) j ≡ (text_eq k j || has m j)
has-insert k j m = rw (lookup-insert k j tt m) (ground arith)

has-defined_names :
    (v : Text) (names : Names) (items : List ParameterFormItem)
    → is_empty v ≡ false
    → has (defined_names names items) v ≡ (has names v || fills v items)
unfolding defined_names
has-defined_names v names [] filled = ground arith
has-defined_names v names (item ∷ items) filled = ground (
  arith,
  has-insert item.variable v names,
  has-defined_names v names items,
  has-defined_names v (insert item.variable tt names) items,
  text_eq_iff item.variable v,
)

defined_names-DistinctKeys :
    (names : Names) (items : List ParameterFormItem)
    → DistinctKeys names
    → DistinctKeys (defined_names names items)
unfolding defined_names
defined_names-DistinctKeys names [] d = d
defined_names-DistinctKeys names (item ∷ items) d = elim (Bool-cases (is_empty item.variable)) [
  | inl e ↦ rw e (defined_names-DistinctKeys names items d)
  | inr e ↦ rw e (
      defined_names-DistinctKeys (insert item.variable tt names) items
        (insert-DistinctKeys item.variable tt names d))
]

empty_differs : (v w : Text) → is_empty v ≡ false → is_empty w ≡ true → text_eq v w ≡ false
unfolding text_eq
empty_differs [] w filled empty = cc
empty_differs (c ∷ v) [] filled empty = refl
empty_differs (c ∷ v) (d ∷ w) filled empty = cc

check_expected_lem :
    (v : Text) (defined expected : Names) (vs : List Text)
    → is_empty v ≡ false
    → (count (is_missing v) (check_expected defined expected vs).0
        ≡ (if has defined v then 0 else named v vs))
      × (count (is_unexpected v) (check_expected defined expected vs).0 ≡ 0)
      × (has (check_expected defined expected vs).1 v ≡ (has expected v || ltb 0 (named v vs)))
unfolding check_expected
check_expected_lem v defined expected [] filled = ground arith
check_expected_lem v defined expected (w ∷ vs) filled =
    let variable = trim_space w in
    elim (Bool-cases (is_empty variable)) [
      | inl e ↦
          rw (e, empty_differs v variable filled e)
            (check_expected_lem v defined expected vs filled)
      | inr e ↦
          let next = insert variable tt expected in
          let (a, b, c) = check_expected_lem v defined next vs filled in
          let inserted = has-insert variable v expected in
          elim (Bool-cases (text_eq v variable)) [
            | inl same ↦
                let here : has defined v ≡ has defined variable =
                  ap (has defined) (eq_of_text_eq v variable same) in
                rw e (ground (arith, text_eq_iff v variable, text_eq_iff variable v))
            | inr differ ↦ rw e (ground (arith, text_eq_iff v variable, text_eq_iff variable v))
          ]
    ]

check_defined_absent :
    (v : Text) (expected defined : Names)
    → AbsentKey v defined
    → count (is_unexpected v) (check_defined expected defined) ≡ 0
unfolding check_defined
check_defined_absent v expected [] a = refl
check_defined_absent v expected ((w, _) ∷ defined) (ne, a) =
    ground (arith, check_defined_absent v expected defined a)

check_defined-unexpected :
    (v : Text) (expected defined : Names)
    → DistinctKeys defined
    → count (is_unexpected v) (check_defined expected defined)
      ≡ (if has defined v && not (has expected v) then 1 else 0)
unfolding check_defined lookup
check_defined-unexpected v expected [] d = refl
check_defined-unexpected v expected ((w, _) ∷ defined) (a, d) = elim (Bool-cases (text_eq w v)) [
  | inl e ↦
      let here : w ≡ v = eq_of_text_eq w v e in
      let none_left =
        check_defined_absent v expected defined (subst (λ t. AbsentKey t defined) here a) in
      rw here (ground (arith, none_left, text_eq_refl v))
  | inr e ↦ ground (arith, check_defined-unexpected v expected defined d)
]

check_defined-missing :
    (v : Text) (expected defined : Names)
    → count (is_missing v) (check_defined expected defined) ≡ 0
unfolding check_defined
check_defined-missing v expected [] = refl
check_defined-missing v expected ((w, _) ∷ defined) =
    ground (arith, check_defined-missing v expected defined)

-- For a variable: its warnings as missing and as unexpected.
abbrev pub IsWarned : List Warning → Text → ℕ → ℕ → Type 0
IsWarned warnings v as_missing as_unexpected =
    (count (is_missing v) warnings ≡ as_missing)
    × (count (is_unexpected v) warnings ≡ as_unexpected)

contract_warnings_lem :
    (params : Parameters) (variables : List Text) (v : Text)
    → is_empty v ≡ false
    → let filled = fills v params.user_input_form in
      IsWarned
        (contract_warnings params variables)
        v
        (if filled then 0 else named v variables)
        (if filled && not (ltb 0 (named v variables)) then 1 else 0)
unfolding contract_warnings lookup
contract_warnings_lem params variables v filled =
    let defined = defined_names [] params.user_input_form in
    let (warnings, expected) = check_expected defined [] variables in
    let (missed, none_unexpected, asked) = check_expected_lem v defined [] variables filled in
    let known : has defined v ≡ fills v params.user_input_form =
      has-defined_names v [] params.user_input_form filled in
    let apart = defined_names-DistinctKeys [] params.user_input_form tt in
    let none_missing = check_defined-missing v expected defined in
    let surplus = check_defined-unexpected v expected defined apart in
    (
      omega (
        arith,
        count-append (is_missing v) warnings (check_defined expected defined),
        missed ∙ ap (λ b. if b then 0 else named v variables) known,
        none_missing,
      ),
      count-append (is_unexpected v) warnings (check_defined expected defined)
          ∙ rw (none_unexpected, surplus, asked, known) (zero-add _),
    )

module _ (http : HttpRequest → HttpReply) (decode : HttpRequest → Option ParametersPayload) where
  -- The check of the parameters is exact: when the App gives its parameters, the check does not fail, and of
  -- a variable that is not empty it warns as missing each time the operator names it, spaces aside, if no
  -- field of the form fills it, and once as unexpected if a field fills it and the operator does not name it.
  pub check_parameter_contract_lem :
      (c : Client) (params : Parameters) (variables : List Text) (v : Text)
      → get_parameters http decode c ≡ ok params
      → is_empty v ≡ false
      → ((check_parameter_contract http decode c variables true).0 ≡ none)
        × IsWarned
            (check_parameter_contract http decode c variables true).1
            v
            (if fills v params.user_input_form then 0 else named v variables)
            (if fills v params.user_input_form && not (ltb 0 (named v variables)) then 1 else 0)
  unfolding check_parameter_contract
  check_parameter_contract_lem c params variables v given filled =
      rw given (refl, contract_warnings_lem params variables v filled)
