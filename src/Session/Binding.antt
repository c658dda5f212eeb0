-- ===== src/Session/Binding.antt =====
-- internal/auth/auth.go, BindSession: who is bound, and when.
use dify_game_gateway.Session.{
  bind_session, Parsed, Session, token, bind, expired, failed, bind_verified, verify,
}
use dify_game_gateway.Base.{[], ◌∷◌, true, false, refl, Text, ◌≡◌, ◌≢◌}

verified_lem :
    (s : Session) (q : Parsed)
    → let (ok, reason, s') = bind_verified s (verify q) in
      (ok ≡ true → (p : Text) × (q ≡ token true p) × (p ≢ []) × (s' ≡ bind s p))
      × (ok ≡ false → (s' ≡ s) × (reason ≢ []))
unfolding bind_verified verify
verified_lem s expired = (λ e. cc, λ _. (refl, λ e. cc))
verified_lem s failed = (λ e. cc, λ _. (refl, λ e. cc))
verified_lem s (token false p) = (λ e. cc, λ _. (refl, λ e. cc))
verified_lem s (token true []) = (λ e. cc, λ _. (refl, λ e. cc))
verified_lem s (token true (c ∷ p)) = (λ _. (c ∷ p, refl, λ e. cc, refl), λ e. cc)

-- A session is bound only if there is a token, the library accepts it as valid and it names a player,
-- and then to that player. On every refusal the session is as it was, and the client gets a reason.
pub bind_session_lem :
    (parse : Text → Parsed) (s : Session) (session_token : Text)
    → let (ok, reason, s') = bind_session parse s session_token in
      (ok ≡ true
        → (session_token ≢ [])
          × ((p : Text) × (parse session_token ≡ token true p) × (p ≢ []) × (s' ≡ bind s p)))
      × (ok ≡ false → (s' ≡ s) × (reason ≢ []))
unfolding bind_session
bind_session_lem parse s [] = (λ e. cc, λ _. (refl, λ e. cc))
bind_session_lem parse s (c ∷ t) =
    let (good, bad) = verified_lem s (parse (c ∷ t)) in (λ e. (λ k. cc, good e), bad)
