-- ===== src/Pipeline/Reset.antt =====
-- internal/pipeline/handler.go, HandleReset.
use dify_game_gateway.Wire.{ResetRequest}
use dify_game_gateway.Pipeline.Errors.{Failure}
use dify_game_gateway.Base.{
  [], ◌∷◌, none, some, Text, Option, List, trim_space, if◌then◌else◌, text, is_empty, not,
}
use dify_game_gateway.Base.Int.{pos}
use dify_game_gateway.Pipeline.Effects.{
  sent, counted, delete_conversation, Handler, Effect, internal, done_envelope, bad_request,
}

after_delete : Text → Option Failure → List Effect
after_delete id (some e) = internal id (text "conversation reset failed")
after_delete id none = sent (done_envelope id [] (pos 0)) ∷ counted (text "ok") ∷ []

-- `deleted` is what DeleteConversation answers.
unfoldable pub handle_reset : Handler → Option Failure → Text → ResetRequest → List Effect
unfolding after_delete
handle_reset h deleted player req =
    let npc = trim_space req.npc_id in
    if is_empty npc
    then bad_request req.request_id (text "npc_id is required")
    else if not h.has_store
    then internal req.request_id (text "gateway is not ready")
    else delete_conversation player npc ∷ after_delete req.request_id deleted
