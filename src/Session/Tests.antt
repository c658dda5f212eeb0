-- ===== src/Session/Tests.antt =====
-- internal/auth/auth.go: the binding of a session on small inputs.
use dify_game_gateway.Base.{Text, text, [], ◌≡◌, ◌≢◌, true, false}
use dify_game_gateway.Session.{Session, Parsed, token, new_session, bind, bind_session}
use dify_game_gateway.Session.Binding.{bind_session_lem}

-- A library that accepts every token for one player.
abbrev lenient : Text → Parsed
lenient t = token true (text "hero")

abbrev guest : Session
guest = new_session (text "c1") (text "127.0.0.1")

bind_session_lem_example :
    let (ok, reason, s') = bind_session lenient guest (text "jwt") in
    (ok ≡ true
      → (text "jwt" ≢ [])
        × ((p : Text) × (lenient (text "jwt") ≡ token true p) × (p ≢ []) × (s' ≡ bind guest p)))
    × (ok ≡ false → (s' ≡ guest) × (reason ≢ []))
bind_session_lem_example = bind_session_lem lenient guest (text "jwt")
