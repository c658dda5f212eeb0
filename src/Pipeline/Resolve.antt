-- ===== src/Pipeline/Resolve.antt =====
-- internal/pipeline/handler.go, resolveConversation: which conversation a chat goes on with, and
-- whether its creation is locked.
use dify_game_gateway.Base.{
  ℕ, Text, Bool, true, false, List, [], ◌∷◌, Option, none, some, if◌then◌else◌, trim_space,
  is_empty, ◌++◌, not,
}
use dify_game_gateway.Base.Int.{ℤ, pos, pos_part, ◌+ℤ◌, ltb_ℤ}
use dify_game_gateway.Pipeline.Errors.{Result, ok, err}
use dify_game_gateway.Pipeline.Effects.{
  Effect, get_conversation, acquire_lock, unlock, Answers, Handler,
}

-- One second in nanoseconds.
abbrev pub second : ℕ
second = 1_000_000_000

-- The lock outlives the request's deadline by a second, if that is later than its own lifetime.
unfoldable pub lock_ttl : Handler → Option ℤ → ℕ
lock_ttl h none = h.lock_ttl
lock_ttl h (some remaining) =
    let until = remaining +ℤ pos second in
    if ltb_ℤ (pos h.lock_ttl) until then pos_part until else h.lock_ttl

-- The conversation, and whether the caller holds the lock and has to unlock it.
pub record Resolved : Type 0 where
  pub effects : List Effect
  pub conversation : Result Text
  pub locked : Bool

-- The second look at the store, with the lock held.
unfoldable pub look_again : List Effect → Text → Text → Result Text → Resolved
look_again before player npc (err e) = record {
  effects = before ++ get_conversation player npc ∷ unlock ∷ [];
  conversation = err e;
  locked = false;
}
look_again before player npc (ok conversation) =
    if is_empty conversation
    then record {
      effects = before ++ get_conversation player npc ∷ [];
      conversation = ok conversation;
      locked = true;
    }
    else record {
      effects = before ++ get_conversation player npc ∷ unlock ∷ [];
      conversation = ok conversation;
      locked = false;
    }

unfoldable pub create_locked : Handler → Answers → Text → Text → Resolved
create_locked h a player npc =
    let lock = acquire_lock player npc (lock_ttl h a.until_deadline) in
    let before = get_conversation player npc ∷ lock ∷ [] in
    elim a.acquire [
      | some e ↦ record { effects = before; conversation = err e; locked = false }
      | none ↦ look_again before player npc a.second_get
    ]

-- A conversation that needs no lock.
unfoldable pub found : Text → Text → Text → Resolved
found player npc conversation = record {
  effects = get_conversation player npc ∷ [];
  conversation = ok conversation;
  locked = false;
}

unfoldable pub resolve_from : Handler → Answers → Text → Text → Text → Result Text → Resolved
resolve_from h a player npc client_conversation (err e) = record {
  effects = get_conversation player npc ∷ [];
  conversation = err e;
  locked = false;
}
resolve_from h a player npc client_conversation (ok stored) =
    let trimmed = trim_space client_conversation in
    if not (is_empty stored)
    then found player npc stored
    else if not (is_empty trimmed)
    then found player npc trimmed
    else create_locked h a player npc

unfoldable pub resolve_conversation : Handler → Answers → Text → Text → Text → Resolved
unfolding found resolve_from create_locked look_again lock_ttl
resolve_conversation h a player npc client_conversation =
    resolve_from h a player npc client_conversation a.first_get
