-- ===== src/Listener/Access.antt =====
-- internal/listener/listener.go: what a connection lets its client do.
use dify_game_gateway.Mux
use dify_game_gateway.Pipeline.Tally.{count, is_delete, count-append}
use dify_game_gateway.Mux.{new_registry}
use dify_game_gateway.Session.{bind_session, bind, Parsed, Session}
use dify_game_gateway.Base.{
  [], ◌∷◌, true, false, refl, inl, inr, ◌≡◌, List, Text, arith, lookup, Bool-cases, is_empty, ap,
}
use dify_game_gateway.Wire.{
  auth, chat, stop, ping, reset, unknown, auth_result, pong, ClientEnvelope, ChatRequest,
  ResetRequest, ServerEnvelope,
}
use dify_game_gateway.Pipeline.Effects.{sent}
use dify_game_gateway.Listener.{
  Services, Conn, dispatch, bind_session, authenticate, new_registry, ClientEnvelope, Parsed,
  Session, handle_chat, handle_reset, ChatRequest, ResetRequest, open_conn, ServerEnvelope, send,
}

-- The read loop, over the envelopes that the client sends.
abbrev pub dispatch_all : Services → Conn → List ClientEnvelope → Conn
dispatch_all s c [] = c
dispatch_all s c (e ∷ es) = dispatch_all s (dispatch s c e) es

bind_session-authed :
    (parse : Text → Parsed) (s : Session) (session_token : Text)
    → s.authed ≡ true
    → (bind_session parse s session_token).2.authed ≡ true
unfolding bind_session bind
bind_session-authed parse s session_token h = ground arith

-- Once authenticated, a connection stays so.
dispatch-authed :
    (s : Services) (c : Conn) (e : ClientEnvelope)
    → c.session.authed ≡ true
    → (dispatch s c e).session.authed ≡ true
unfolding dispatch authenticate
dispatch-authed s c (auth req) h =
    ground (arith, bind_session-authed s.parse c.session req.session_token h)
dispatch-authed s c ping h = h
dispatch-authed s c e h = ground arith

dispatch_all-authed :
    (s : Services) (c : Conn) (es : List ClientEnvelope)
    → c.session.authed ≡ true
    → (dispatch_all s c es).session.authed ≡ true
dispatch_all-authed s c [] h = h
dispatch_all-authed s c (e ∷ es) h =
    dispatch_all-authed s (dispatch s c e) es (dispatch-authed s c e h)

-- What has been done for a client that is not authenticated.
abbrev IsUntouched : Conn → Type 0
IsUntouched c = (c.started ≡ []) × (c.registry ≡ new_registry) × (count is_delete c.effects ≡ 0)

send-IsUntouched : (c : Conn) (e : ServerEnvelope) → IsUntouched c → IsUntouched (send c e)
send-IsUntouched c e u = ground (arith, count-append is_delete c.effects (sent e ∷ []))

chat-IsUntouched :
    (c : Conn) (req : ChatRequest)
    → c.session.authed ≡ false
    → IsUntouched c
    → IsUntouched (handle_chat c req)
unfolding handle_chat
chat-IsUntouched c req h u = elim (Bool-cases (is_empty req.request_id)) [
  | inl e ↦ rw e (send-IsUntouched c _ u)
  | inr e ↦ rw (e, h) (send-IsUntouched c _ u)
]

reset-IsUntouched :
    (s : Services) (c : Conn) (req : ResetRequest)
    → c.session.authed ≡ false
    → IsUntouched c
    → IsUntouched (handle_reset s c req)
unfolding handle_reset
reset-IsUntouched s c req h u = elim (Bool-cases (is_empty req.request_id)) [
  | inl e ↦ rw e (send-IsUntouched c _ u)
  | inr e ↦ rw (e, h) (send-IsUntouched c _ u)
]

dispatch-IsUntouched :
    (s : Services) (c : Conn) (e : ClientEnvelope)
    → c.session.authed ≡ false
    → IsUntouched c
    → IsUntouched (dispatch s c e)
unfolding dispatch new_registry Mux.stop lookup
dispatch-IsUntouched s c ping h u = send-IsUntouched c pong u
dispatch-IsUntouched s c (auth req) h u =
    let (ok, reason, session) = authenticate s c.session req.session_token in
    send-IsUntouched (record c { session = session }) (auth_result ok reason) u
dispatch-IsUntouched s c (stop id) h (none_started, fresh, quiet) =
    (none_started, ap (λ r. (Mux.stop r id).1) fresh, quiet)
dispatch-IsUntouched s c (chat req) h u = chat-IsUntouched c req h u
dispatch-IsUntouched s c (reset req) h u = reset-IsUntouched s c req h u
dispatch-IsUntouched s c unknown h u = u

-- A client that has not authenticated reaches nothing: as long as a connection is not authenticated,
-- whatever its client has sent, no chat was started, no request is registered and no conversation was
-- deleted.
pub dispatch_all-IsUntouched :
    (s : Services) (id remote_addr : Text) (es : List ClientEnvelope)
    → let c = dispatch_all s (open_conn id remote_addr) es in
      c.session.authed ≡ false
      → (c.started ≡ []) × (c.registry ≡ new_registry) × (count is_delete c.effects ≡ 0)
unfolding open_conn
dispatch_all-IsUntouched s id remote_addr es h =
    from (open_conn id remote_addr) es h (refl, refl, refl)
  where
    from :
        (c : Conn) (es : List ClientEnvelope)
        → (dispatch_all s c es).session.authed ≡ false
        → IsUntouched c
        → IsUntouched (dispatch_all s c es)
    from c [] h u = u
    from c (e ∷ es) h u = elim (Bool-cases c.session.authed) [
      | inl yes_ ↦ cc (dispatch_all-authed s c (e ∷ es) yes_)
      | inr no_ ↦ from (dispatch s c e) es h (dispatch-IsUntouched s c e no_ u)
    ]
