-- ===== src/Pipeline/Tally.antt =====
-- internal/pipeline/handler.go: the counting of what a handler does.
use dify_game_gateway.Base.{
  suc, [], ◌∷◌, true, false, Bool, List, ◌++◌, ℕ, ◌≡◌, if◌then◌else◌, ◌+◌, sym, zero-add, arith,
}
use dify_game_gateway.Wire.{done, error, blocked, ServerEnvelope}
use dify_game_gateway.Pipeline.Effects.{
  sent, limiter_record, limiter_record_failure, limiter_release, unlock, chat_stream,
  delete_conversation, Effect,
}

abbrev pub count {ℓ} : {A : Type ℓ} → (A → Bool) → List A → ℕ
count p [] = 0
count p (x ∷ xs) = let rest = count p xs in if p x then suc rest else rest

pub count-append {ℓ} :
    {A : Type ℓ} (p : A → Bool) (xs ys : List A) → count p (xs ++ ys) ≡ count p xs + count p ys
count-append p [] ys = sym (zero-add _)
count-append p (x ∷ xs) ys = ground (arith, count-append p xs ys)

-- The calls that give an in-flight slot back.
abbrev pub is_settle : Effect → Bool
is_settle (limiter_record _ _) = true
is_settle limiter_record_failure = true
is_settle limiter_release = true
is_settle _ = false

-- The frames that end a request for the client.
abbrev pub is_final : ServerEnvelope → Bool
is_final (done _ _ _) = true
is_final (error _ _ _) = true
is_final (blocked _ _) = true
is_final _ = false

abbrev pub is_end : Effect → Bool
is_end (sent e) = is_final e
is_end _ = false

abbrev pub is_unlock : Effect → Bool
is_unlock unlock = true
is_unlock _ = false

abbrev pub is_chat_stream : Effect → Bool
is_chat_stream (chat_stream _) = true
is_chat_stream _ = false

abbrev pub is_delete : Effect → Bool
is_delete (delete_conversation _ _) = true
is_delete _ = false
