-- ===== src/Context/Contract.antt =====
-- internal/context/context.go: what Build gives for a key.
use dify_game_gateway.Base.{
  Text, text_eq_iff, List, [], ◌∷◌, Option, none, some, if◌then◌else◌, ◌≡◌, refl, arith, lookup,
  insert, lookup-insert, DistinctKeys, AbsentKey, All, inl, inr, Option-cases, ◌∙◌,
}
use dify_game_gateway.Pipeline.Errors.{Failure}
use dify_game_gateway.Context.{
  Fetched, unavailable, fetched, Turn, admits, merge, after_fetch, build_from, build,
}

-- The value that a provider offers for a key.
abbrev pub offered_by : Text → Fetched → Option Text
offered_by k unavailable = none
offered_by k (fetched values) = lookup k values

abbrev pub or_earlier : Option Text → Option Text → Option Text
or_earlier (some v) earlier = some v
or_earlier none earlier = earlier

-- The last value that is offered by the providers that are asked before the context ends.
abbrev pub offered : Text → List Turn → Option Text
offered k [] = none
offered k (t ∷ turns) = elim t.context_error [
  | some e ↦ none
  | none ↦ or_earlier (offered k turns) (offered_by k t.answer)
]

-- The first error of the context.
abbrev pub interruption : List Turn → Option Failure
interruption [] = none
interruption (t ∷ turns) = elim t.context_error [ some e ↦ some e | none ↦ interruption turns ]

abbrev pub IsMap : Fetched → Type 0
IsMap unavailable = Unit
IsMap (fetched values) = DistinctKeys values

abbrev pub AnswersMap : Turn → Type 0
AnswersMap t = IsMap t.answer

lookup-AbsentKey : (k : Text) (m : List (Text × Text)) → AbsentKey k m → lookup k m ≡ none
unfolding lookup
lookup-AbsentKey k [] h = refl
lookup-AbsentKey k ((j, v) ∷ m) (h, hs) = rw h (lookup-AbsentKey k m hs)

lookup-merge :
    (contract : List Text) (k : Text) (values inputs : List (Text × Text))
    → DistinctKeys values
    → lookup k (merge contract values inputs) ≡ (
        if admits contract k
        then or_earlier (lookup k values) (lookup k inputs)
        else lookup k inputs)
unfolding merge lookup
lookup-merge contract k [] inputs h = ground arith
lookup-merge contract k ((j, v) ∷ values) inputs (h, hs) = ground (
  arith,
  lookup-merge contract k values (if admits contract j then insert j v inputs else inputs) hs,
  lookup-insert j k v inputs,
  lookup-AbsentKey j values h,
  text_eq_iff j k,
)

lookup-after_fetch :
    (contract : List Text) (k : Text) (answer : Fetched) (inputs : List (Text × Text))
    → IsMap answer
    → lookup k (after_fetch contract answer inputs) ≡ (
        if admits contract k
        then or_earlier (offered_by k answer) (lookup k inputs)
        else lookup k inputs)
unfolding after_fetch
lookup-after_fetch contract k unavailable inputs h = ground arith
lookup-after_fetch contract k (fetched values) inputs h = lookup-merge contract k values inputs h

build_from_lem :
    (contract : List Text) (k : Text) (turns : List Turn) (inputs : List (Text × Text))
    → All AnswersMap turns
    → (lookup k (build_from contract turns inputs).0 ≡ (
        if admits contract k
        then or_earlier (offered k turns) (lookup k inputs)
        else lookup k inputs))
      × ((build_from contract turns inputs).1 ≡ interruption turns)
unfolding build_from
build_from_lem contract k [] inputs h = (ground arith, refl)
build_from_lem contract k (t ∷ turns) inputs (h, hs) = elim (Option-cases t.context_error) [
  | inr (e, stop) ↦ rw stop (ground arith, refl)
  | inl go ↦
      let (values, error) =
        build_from_lem contract k turns (after_fetch contract t.answer inputs) hs in
      let first = lookup-after_fetch contract k t.answer inputs h in
      rw go (values ∙ ground (arith, first), error)
]

-- A chat's variables are those of the contract and no others: whatever the providers answer or fail
-- to answer, a key of the contract has the last value that was offered for it by the providers asked
-- before the context ended, a key outside the contract has none, and the error is the first of the
-- context. The providers answer with maps.
pub build_lem :
    (contract : List Text) (k : Text) (turns : List Turn)
    → All AnswersMap turns
    → (lookup k (build contract turns).0 ≡ (if admits contract k then offered k turns else none))
      × ((build contract turns).1 ≡ interruption turns)
unfolding build lookup
build_lem contract k turns h =
    let (values, error) = build_from_lem contract k turns [] h in (ground (arith, values), error)
