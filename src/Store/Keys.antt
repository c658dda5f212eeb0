-- ===== src/Store/Keys.antt =====
-- internal/store/store.go: the mapping of players and NPCs to conversations.
use dify_game_gateway.Base.{
  ◌≤◌, Text, text_eq, Bool, true, false, [], ◌∷◌, ◌++◌, none, if◌then◌else◌, ◌≡◌, ◌≢◌, ◌==◌, ◌||◌,
  refl, arith, ℕ,
}
use dify_game_gateway.Base.Int.{ℤ, pos, pos_part, leb_ℤ}
use dify_game_gateway.Limiter.Guards.{delivered}
use dify_game_gateway.Pipeline.Errors.{ok}
use dify_game_gateway.Store.{alive, Values, conversation_key, get_conversation, set_conversation}

abbrev pub has_colon : Text → Bool
has_colon [] = false
has_colon (c ∷ s) = c == b':' || has_colon s

cut_at_colon :
    (p q n m : Text)
    → has_colon p ≡ false
    → has_colon q ≡ false
    → p ++ b':' ∷ n ≡ q ++ b':' ∷ m
    → (p ≡ q) × (n ≡ m)
cut_at_colon [] [] n m hp hq e = (refl, ground (arith, e))
cut_at_colon [] (d ∷ q) n m hp hq e = ground arith
cut_at_colon (c ∷ p) [] n m hp hq e = ground arith
cut_at_colon (c ∷ p) (d ∷ q) n m hp hq e = ground (arith, cut_at_colon p q n m)

-- Two players without a colon in their ids never share a conversation, whatever their NPCs are
-- called.
pub conversation_key_injective :
    (p q n m : Text)
    → has_colon p ≡ false
    → has_colon q ≡ false
    → conversation_key p n ≡ conversation_key q m
    → (p ≡ q) × (n ≡ m)
conversation_key_injective p q n m hp hq e = cut_at_colon p q n m hp hq (ground (arith, e))

-- What is stored for a player and an NPC is what a read of them gives until its expiry, and nothing from then on,
-- and a read of a player and an NPC with another key gives what it gave before; an expiry that is not positive is
-- refused and changes nothing.
pub get_conversation-set_conversation :
    (values : Values) (now later : ℕ) (p n c q m : Text) (ttl : ℤ) (db : values.Db)
    → now ≤ later
    → let (error, db') = set_conversation values now delivered p n c ttl db in
      let after = get_conversation values later delivered q m db' in
      let earlier = get_conversation values later delivered q m db in
      let kept = if alive now (pos_part ttl) later then ok c else ok [] in
      (leb_ℤ ttl (pos 0) ≡ true → (error ≢ none) × (db' ≡ db))
      × (leb_ℤ ttl (pos 0) ≡ false
          → (error ≡ none)
            × (after ≡ (
                if text_eq (conversation_key p n) (conversation_key q m) then kept else earlier)))
unfolding set_conversation get_conversation
get_conversation-set_conversation values now later p n c q m ttl db h = ground (
  arith,
  values.get-set now later (conversation_key p n) (conversation_key q m) c (pos_part ttl) db h,
)
