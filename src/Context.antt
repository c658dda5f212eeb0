-- ===== src/Context.antt =====
-- internal/context/context.go: the variables of a chat, from providers that may fail. A map is an
-- association list; what a provider answers is one whose keys are distinct.
pub mod Contract
mod Tests
use dify_game_gateway.Base.{
  Text, text, text_eq, Bool, true, false, List, [], ◌∷◌, Option, none, some, if◌then◌else◌, ◌||◌,
  insert,
}
use dify_game_gateway.Pipeline.Errors.{Failure}

abbrev pub default_contract : List Text
default_contract =
    text "player_level"
    ∷ text "current_quest"
    ∷ text "affinity"
    ∷ text "scene"
    ∷ text "recent_events"
    ∷ []

-- What Fetch answers.
pub data Fetched : Type 0 where
  unavailable : Fetched
  fetched : (values : List (Text × Text)) → Fetched

-- A provider's turn: what ctx.Err() is before it, and its answer.
pub record Turn : Type 0 where
  pub context_error : Option Failure
  pub answer : Fetched

-- `_, ok := a.allowed[k]`
unfoldable pub admits : List Text → Text → Bool
admits [] k = false
admits (c ∷ contract) k = text_eq c k || admits contract k

-- The loop over what a provider answered.
unfoldable pub merge : List Text → List (Text × Text) → List (Text × Text) → List (Text × Text)
merge contract [] inputs = inputs
merge contract ((k, v) ∷ values) inputs =
    merge contract values (if admits contract k then insert k v inputs else inputs)

unfoldable pub after_fetch : List Text → Fetched → List (Text × Text) → List (Text × Text)
after_fetch contract unavailable inputs = inputs
after_fetch contract (fetched values) inputs = merge contract values inputs

unfoldable pub build_from :
    List Text → List Turn → List (Text × Text) → List (Text × Text) × Option Failure
build_from contract [] inputs = (inputs, none)
build_from contract (t ∷ turns) inputs = elim t.context_error [
  | some e ↦ (inputs, some e)
  | none ↦ build_from contract turns (after_fetch contract t.answer inputs)
]

unfoldable pub build : List Text → List Turn → List (Text × Text) × Option Failure
unfolding build_from
build contract turns = build_from contract turns []
