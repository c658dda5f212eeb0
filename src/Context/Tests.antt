-- ===== src/Context/Tests.antt =====
-- internal/context/context.go: the variables of a chat on small inputs.
use dify_game_gateway.Base.{text, List, [], ◌∷◌, none, some, ◌≡◌, refl, lookup, text_eq}
use dify_game_gateway.Pipeline.Errors.{deadline_exceeded}
use dify_game_gateway.Context.{default_contract, Turn, fetched, unavailable, build, admits}
use dify_game_gateway.Context.Contract.{build_lem}

abbrev turns : List Turn
turns =
    record {
      context_error = none;
      answer = fetched ((text "scene", text "inn") ∷ (text "gold", text "9") ∷ []);
    }
    ∷ record { context_error = none; answer = unavailable }
    ∷ record { context_error = none; answer = fetched ((text "scene", text "road") ∷ []) }
    ∷ record {
      context_error = some deadline_exceeded;
      answer = fetched ((text "scene", text "sea") ∷ []);
    }
    ∷ []

build_lem_example :
    (lookup (text "scene") (build default_contract turns).0 ≡ some (text "road"))
    × ((build default_contract turns).1 ≡ some deadline_exceeded)
unfolding admits text_eq lookup
build_lem_example =
    build_lem default_contract (text "scene") turns
      (((refl, tt), (tt, tt)), (tt, ((tt, tt), ((tt, tt), tt))))
