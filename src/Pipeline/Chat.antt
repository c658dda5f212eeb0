-- ===== src/Pipeline/Chat.antt =====
-- internal/pipeline/handler.go, HandleChat. The effects of each stage stand before those of the next,
-- as the code makes them; an early return is a branch that goes no further.
use dify_game_gateway.Pipeline.Stream.{Request, stream}
use dify_game_gateway.Pipeline.Resolve.{Resolved, resolve_conversation}
use dify_game_gateway.Base.{
  [], ◌∷◌, none, some, true, false, Text, List, ℕ, Bool, ◌++◌, ◌+◌, ◌&&◌, Option, if◌then◌else◌,
  text, trim_space, ltb, is_empty, not,
}
use dify_game_gateway.Base.Int.{pos}
use dify_game_gateway.Wire.{blocked, ChatRequest}
use dify_game_gateway.Pipeline.Errors.{
  ok, err, rate_limited, Failure, client_error_code, client_error_message, Result,
}
use dify_game_gateway.Pipeline.Effects.{
  sent, counted, limiter_allow, limiter_record, unlock, build_context, Handler, Answers, Effect,
  internal, refuse, bad_request,
}

abbrev pub max_query_runes : ℕ
max_query_runes = 4096

-- The loop of queryTooLong, after `count` runes.
unfoldable pub too_long_from : ℕ → Text → Bool
too_long_from count [] = false
too_long_from count (c ∷ s) =
    let rest = too_long_from (count + 1) s in if ltb max_query_runes (count + 1) then true else rest

unfoldable pub query_too_long : Text → Bool
unfolding too_long_from
query_too_long query = too_long_from 0 query

unfoldable pub ready : Handler → Bool
ready h = h.has_limiter && h.has_store && h.has_assembler && h.has_dify

-- A request that ends before the upstream call gives its slot back with no tokens used.
unfoldable pub give_up : Request → List Effect → List Effect
give_up r rest = limiter_record r.player (pos 0) ∷ rest

unfoldable pub check_query :
    Handler → Answers → Request → Text → List (Text × Text) → Bool × Text → List Effect
check_query h a r conversation inputs (true, _) = stream h a r conversation inputs
check_query h a r conversation inputs (false, fallback) =
    give_up r (sent (blocked r.id fallback) ∷ counted (text "blocked") ∷ [])

unfoldable pub with_context :
    Handler → Answers → Request → Text → Result (List (Text × Text)) → List Effect
with_context h a r conversation (err e) = give_up r (internal r.id (text "context unavailable"))
with_context h a r conversation (ok inputs) =
    check_query h a r conversation inputs (h.moderator.check_input r.query)

unfoldable pub with_conversation : Handler → Answers → Request → Result Text → List Effect
with_conversation h a r (err e) = give_up r (internal r.id (text "conversation state unavailable"))
with_conversation h a r (ok conversation) =
    build_context r.player r.npc ∷ with_context h a r conversation a.build

-- The deferred unlock runs when the handler returns.
unfoldable pub deferred : Bool → List Effect
deferred locked = if locked then unlock ∷ [] else []

unfoldable pub admitted : Handler → Answers → Request → Resolved → List Effect
admitted h a r resolved =
    resolved.effects ++ (with_conversation h a r resolved.conversation ++ deferred resolved.locked)

-- Allow may refuse with an error or, as its interface lets it, without one.
unfoldable pub allow_failure : Bool × Option Failure → Option Failure
allow_failure (_, some e) = some e
allow_failure (true, none) = none
allow_failure (false, none) = some rate_limited

unfoldable pub after_allow : Handler → Answers → Request → Text → Option Failure → List Effect
after_allow h a r client_conversation (some e) =
    refuse r.id (client_error_code e) (client_error_message e) (text "rate_limited")
after_allow h a r client_conversation none =
    admitted h a r (resolve_conversation h a r.player r.npc client_conversation)

unfoldable pub guarded : Handler → Answers → Request → Text → List Effect
guarded h a r client_conversation =
    limiter_allow r.player ∷ after_allow h a r client_conversation (allow_failure a.allow)

unfoldable pub checked : Handler → Answers → Request → Text → List Effect
checked h a r client_conversation =
    if is_empty r.npc
    then bad_request r.id (text "npc_id is required")
    else if is_empty r.query
    then bad_request r.id (text "query is required")
    else if query_too_long r.query
    then bad_request r.id (text "query is too long")
    else if not (ready h)
    then internal r.id (text "gateway is not ready")
    else guarded h a r client_conversation

unfoldable pub request_of : Text → ChatRequest → Request
request_of player req = record {
  id = req.request_id;
  player = player;
  npc = trim_space req.npc_id;
  query = trim_space req.query;
}

-- HandleChat for the player that the session is bound to.
unfoldable pub handle_chat : Handler → Answers → Text → ChatRequest → List Effect
handle_chat h a player req = checked h a (request_of player req) req.conversation_id
