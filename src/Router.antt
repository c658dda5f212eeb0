-- ===== src/Router.antt =====
-- internal/gateway/dify_router.go: the Dify App of each NPC. The children prove.
pub mod Routes
mod Tests
use dify_game_gateway.Base.{
  [], ◌∷◌, ◌++◌, none, some, true, false, Text, text, List, Bool, Option, ◌||◌, if◌then◌else◌,
  is_empty, trim_space, after_last, lookup, insert, ℕ,
}
use dify_game_gateway.Pipeline.Errors.{Failure, other}
use dify_game_gateway.Sse.{SseEvent, Parsed}
use dify_game_gateway.Dify
use dify_game_gateway.Dify.{Client, new_client, Payload, HttpRequest, HttpReply, ChatReq, silent}

pub record DifyRouter : Type 0 where
  pub clients : List (Text × Client)
  pub default_client : Option Client

pub data RouterError : Type 0 where
  no_base_url no_app_key empty_mapping : RouterError

pub data Made : Type 0 where
  made : DifyRouter → Made
  refused : RouterError → Made

-- The loop over the keys, with the clients that are there.
unfoldable pub add_clients :
    Text → List (Text × Client) → List (Text × Text) → Option (List (Text × Client))
add_clients base_url clients [] = some clients
add_clients base_url clients ((npc, key) ∷ keys) =
    let name = trim_space npc in
    let secret = trim_space key in
    let rest = add_clients base_url (insert name (new_client base_url secret) clients) keys in
    if is_empty name || is_empty secret then none else rest

unfoldable pub with_clients : Option (List (Text × Client)) → Made
with_clients none = refused empty_mapping
with_clients (some clients) =
    made (record { clients = clients; default_client = lookup (text "default") clients })

unfoldable pub new_dify_router : Text → List (Text × Text) → Made
unfolding with_clients
new_dify_router base_url keys =
    if is_empty (trim_space base_url)
    then refused no_base_url
    else if is_empty keys
    then refused no_app_key
    else with_clients (add_clients base_url [] keys)

-- A colon at the end names no NPC.
unfoldable pub npc_after : Option Text → Text
npc_after none = []
npc_after (some []) = []
npc_after (some (c ∷ s)) = trim_space (c ∷ s)

unfoldable pub npc_id_from_user : Text → Text
unfolding npc_after
npc_id_from_user user = npc_after (after_last b':' (trim_space user))

unfoldable pub or_default : Option Client → Option Client → Option Client
or_default (some c) d = some c
or_default none d = d

-- The client of a user, or none: an error.
unfoldable pub client_for_user : DifyRouter → Text → Option Client
unfolding npc_id_from_user or_default
client_for_user r user =
    let npc = npc_id_from_user user in
    or_default (if is_empty npc then none else lookup npc r.clients) r.default_client

-- ChatStream, with what the client needs.
unfoldable pub chat_stream :
    (marshal : Payload → Option (List ℕ)) (http : HttpRequest → ℕ → HttpReply)
    (slept : ℕ → Option Failure) (decode : Text → Option SseEvent)
    → DifyRouter
    → ChatReq
    → List Text
    → Option Failure
    → List ℕ × Parsed
chat_stream marshal http slept decode r req lines cause = elim (client_for_user r req.user) [
  | none ↦ ([], silent other)
  | some c ↦ Dify.chat_stream marshal http slept decode c req lines cause
]

unfoldable pub stop :
    (marshal : Text → Option (List ℕ)) (escape : Text → Text) (http : HttpRequest → HttpReply)
    → DifyRouter
    → (task_id user : Text) → Option Failure
stop marshal escape http r task_id user = elim (client_for_user r user) [
  | none ↦ some other
  | some c ↦ Dify.stop marshal escape http c task_id user
]
