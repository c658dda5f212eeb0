-- ===== src/Router/Routes.antt =====
-- internal/gateway/dify_router.go: which Dify key a chat goes to, from the environment on.
use dify_game_gateway.Base.{
  is_space, eq_of_text_eq, [], ◌∷◌, ◌++◌, none, some, false, Text, text, List, Option, is_empty,
  trim_space, trim_left, trim_right, after_last, lookup, insert, ◌≡◌, refl, ap, ◌∙◌, subst, All,
  arith, text_eq, Bool-cases, inl, inr, trim_space-IsTrimmed, trim_space_of_IsTrimmed,
  trim_right-append, Lacks, after_last-append, DistinctKeys, AbsentKey, lookup-insert,
}
use dify_game_gateway.Wire.{ChatRequest}
use dify_game_gateway.Pipeline.Stream.{user_id}
use dify_game_gateway.Pipeline.Chat.{request_of}
use dify_game_gateway.Config.{Env, Config, loaded, load}
use dify_game_gateway.Config.Keys.{IsMapping, IsWord}
use dify_game_gateway.Config.Loading.{load-IsUsable}
use dify_game_gateway.Dify.{Client, new_client}
use dify_game_gateway.Router.{
  DifyRouter, made, new_dify_router, add_clients, client_for_user, npc_id_from_user, with_clients,
  npc_after, or_default,
}

-- The key of an NPC: its own, else the one named `default`.
abbrev pub first_of : Option Text → Option Text → Option Text
first_of (some key) d = some key
first_of none d = d

abbrev pub key_for : List (Text × Text) → Text → Option Text
key_for keys npc = first_of (lookup npc keys) (lookup (text "default") keys)

abbrev pub client_of : Text → Option Text → Option Client
client_of base_url none = none
client_of base_url (some key) = some (new_client base_url key)

trim_left-middle : (s t : Text) → trim_left (s ++ b':' ∷ t) ≡ trim_left s ++ b':' ∷ t
unfolding trim_left is_space
trim_left-middle [] t = refl
trim_left-middle (c ∷ s) t = ground (arith, trim_left-middle s t)

npc_after-some : (npc : Text) → IsWord npc → npc_after (some npc) ≡ npc
unfolding npc_after
npc_after-some [] (_, filled) = cc
npc_after-some (c ∷ s) (trimmed, _) = trim_space_of_IsTrimmed (c ∷ s) trimmed

-- The NPC is read back from the user that the pipeline makes, whatever the player's id, if the NPC's id
-- has no colon and no space at its ends.
pub npc_id_from_user-user_id :
    (player npc : Text) → IsWord npc → Lacks b':' npc → npc_id_from_user (user_id player npc) ≡ npc
unfolding npc_id_from_user trim_space
npc_id_from_user-user_id player npc word lacks =
    let ((_, right), filled) = word in
    let tail = trim_right-append (b':' ∷ []) npc filled right in
    let whole : trim_space (user_id player npc) ≡ trim_left player ++ b':' ∷ npc =
      ap trim_right (trim_left-middle player npc)
      ∙ trim_right-append (trim_left player) (b':' ∷ npc) refl tail in
    ap (λ s. npc_after (after_last b':' s)) whole
    ∙ ap npc_after (after_last-append b':' (trim_left player) npc lacks)
    ∙ npc_after-some npc word

abbrev either : Option Text → Text → Option Client → Option Client
either none base_url o = o
either (some key) base_url o = some (new_client base_url key)

either-none :
    (o : Option Text) (base_url npc : Text)
    → either o base_url (lookup npc []) ≡ client_of base_url o
unfolding lookup
either-none none base_url npc = refl
either-none (some key) base_url npc = refl

-- The clients are those of the keys, and those that were there.
abbrev Adds :
    Text → List (Text × Client) → List (Text × Text) → Option (List (Text × Client)) → Type 0
Adds base_url clients keys o =
    (all : List (Text × Client)) × (o ≡ some all)
    × ((npc : Text) → lookup npc all ≡ either (lookup npc keys) base_url (lookup npc clients))

lookup_of_AbsentKey :
    (j : Text) (keys : List (Text × Text)) → AbsentKey j keys → lookup j keys ≡ none
unfolding lookup
lookup_of_AbsentKey j [] a = refl
lookup_of_AbsentKey j ((i, v) ∷ keys) (ne, a) = rw ne (lookup_of_AbsentKey j keys a)

add_clients-Adds :
    (base_url : Text) (clients : List (Text × Client)) (keys : List (Text × Text))
    → All IsMapping keys
    → DistinctKeys keys
    → Adds base_url clients keys (add_clients base_url clients keys)
unfolding add_clients lookup
add_clients-Adds base_url clients [] h d = (clients, refl, λ npc. refl)
add_clients-Adds base_url clients ((name, key) ∷ keys) (((word, filled), (word', filled')), h)
      (absent, d) =
    let same = trim_space_of_IsTrimmed name word in
    let same' = trim_space_of_IsTrimmed key word' in
    let client = new_client base_url key in
    let (all, result, found) = add_clients-Adds base_url (insert name client clients) keys h d in
    (
      all,
      rw (same, same', filled, filled') result,
      λ npc. found npc ∙ elim (Bool-cases (text_eq name npc)) [
        | inl e ↦
            let gone = subst (λ t. AbsentKey t keys) (eq_of_text_eq name npc e) absent in
            rw (lookup-insert name npc client clients, e, lookup_of_AbsentKey npc keys gone) refl
        | inr e ↦ rw (lookup-insert name npc client clients, e) refl
      ],
    )

-- Which client a chat gets, once the router is made.
module _ (base_url : Text) (keys : List (Text × Text))
    (set : is_empty (trim_space base_url) ≡ false) (filled : is_empty keys ≡ false)
    (sound : All IsMapping keys) (distinct : DistinctKeys keys) where
  pub made_router :
      (r : DifyRouter) × (new_dify_router base_url keys ≡ made r)
      × ((npc : Text) → lookup npc r.clients ≡ client_of base_url (lookup npc keys))
      × (r.default_client ≡ client_of base_url (lookup (text "default") keys))
  unfolding new_dify_router with_clients
  made_router =
      let (all, result, found) = add_clients-Adds base_url [] keys sound distinct in
      let known : (npc : Text) → lookup npc all ≡ client_of base_url (lookup npc keys) =
        λ npc. found npc ∙ either-none (lookup npc keys) base_url npc in
      (
        record { clients = all; default_client = lookup (text "default") all },
        rw (set, filled, result) refl,
        known,
        known (text "default"),
      )

  or_default-client_of :
      (o d : Option Text)
      → or_default (client_of base_url o) (client_of base_url d) ≡ client_of base_url (first_of o d)
  unfolding or_default
  or_default-client_of none d = refl
  or_default-client_of (some key) d = refl

  -- The router is made, and sends a chat to the App whose key its NPC has, else to the one of the key
  -- named `default`, if the NPC's id has no colon and no space at its ends.
  pub client_for_user-key_for :
      (player npc : Text)
      → IsWord npc
      → Lacks b':' npc
      → (r : DifyRouter) × (new_dify_router base_url keys ≡ made r)
        × (client_for_user r (user_id player npc) ≡ client_of base_url (key_for keys npc))
  unfolding client_for_user
  client_for_user-key_for player npc word lacks =
      let (r, result, known, default) = made_router in
      (
        r,
        result,
        rw (npc_id_from_user-user_id player npc word lacks, word.1, known npc, default)
            (or_default-client_of (lookup npc keys) (lookup (text "default") keys)),
      )

-- From the environment to the upstream: with a configuration that Load accepts, the router can be made,
-- and whatever the player's id, a chat whose NPC has an id that is not empty and has no colon goes to
-- the App of the NPC's key, else to that of the key named `default`.
pub load-routes :
    (env : Env) (cfg : Config) (player : Text) (req : ChatRequest)
    → load env ≡ loaded cfg
    → is_empty (request_of player req).npc ≡ false
    → Lacks b':' (request_of player req).npc
    → let q = request_of player req in
      (r : DifyRouter) × (new_dify_router cfg.dify_base_url cfg.dify_app_keys ≡ made r)
      × (client_for_user r (user_id q.player q.npc)
          ≡ client_of cfg.dify_base_url (key_for cfg.dify_app_keys q.npc))
unfolding request_of
load-routes env cfg player req h filled lacks =
    let usable = load-IsUsable env cfg h in
    client_for_user-key_for cfg.dify_base_url cfg.dify_app_keys usable.url_set usable.keys_filled
      usable.keys_sound usable.keys_distinct player (trim_space req.npc_id)
      (trim_space-IsTrimmed req.npc_id, filled) lacks
