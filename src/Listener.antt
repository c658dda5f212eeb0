-- ===== src/Listener.antt =====
-- internal/listener/listener.go: the frames of a connection, one after the other. The read loop makes
-- one step for each envelope that it reads (`Codec` has the reading); a chat is started as a goroutine
-- with its context, and `finish_chat` is a step of the end of one. What the chats do is `Pipeline`.
pub mod Accept
pub mod Accepting
pub mod Access
pub mod Requests
pub mod Serve
pub mod Reading
mod Tests
use dify_game_gateway.Pipeline.Errors.{Failure}
use dify_game_gateway.Mux.{Registry, cancel_all, DoneStep, done_step, new_registry, begin}
use dify_game_gateway.Pipeline.Reset
use dify_game_gateway.Base.{
  [], ◌∷◌, none, some, true, false, Text, ℕ, Bool, List, if◌then◌else◌, Option, ◌++◌, is_empty,
  text, not,
}
use dify_game_gateway.Wire.{
  auth, chat, stop, ping, reset, unknown, auth_result, error, pong, ResetRequest, ClientEnvelope,
  ServerEnvelope, ChatRequest,
}
use dify_game_gateway.Pipeline.Effects.{sent, Handler, Effect}
use dify_game_gateway.Mux
use dify_game_gateway.Session.{Session, new_session, Parsed, bind_session}

-- A chat that was started: its context and its request. Its goroutine reads the session's player when
-- it runs.
pub record Chat : Type 0 where
  pub context : ℕ
  pub request : ChatRequest

pub record Conn : Type 0 where
  pub session : Session
  pub registry : Registry
  pub effects : List Effect  -- what the read loop itself has done, oldest first
  pub started : List Chat  -- the chats, newest first

-- What the connection is given: the handler, the JWT library, and what DeleteConversation answers.
pub record Services : Type 0 where
  pub handler : Handler
  pub parse : Text → Parsed
  pub deleted : Option Failure

unfoldable pub open_conn : Text → Text → Conn
unfolding new_session new_registry
open_conn id remote_addr = record {
  session = new_session id remote_addr;
  registry = new_registry;
  effects = [];
  started = [];
}

abbrev pub send : Conn → ServerEnvelope → Conn
send c e = record c { effects = c.effects ++ sent e ∷ [] }

-- Handler.Authenticate of the pipeline.
unfoldable pub authenticate : Services → Session → Text → Bool × Text × Session
authenticate s session session_token =
    if not s.handler.has_auth
    then (false, text "authenticator unavailable", session)
    else bind_session s.parse session session_token

unfoldable pub handle_auth : Services → Conn → Text → Conn
handle_auth s c session_token =
    let (ok, reason, session) = authenticate s c.session session_token in
    send (record c { session = session }) (auth_result ok reason)

begun : Conn → ChatRequest → Option ℕ × Registry → Conn
begun c req (none, r) =
    send (record c { registry = r })
      (error req.request_id (text "BAD_REQUEST") (text "duplicate request_id in flight"))
begun c req (some context, r) = record c {
  registry = r;
  started = record { context = context; request = req } ∷ c.started;
}

unfoldable pub handle_chat : Conn → ChatRequest → Conn
unfolding begun
handle_chat c req =
    if is_empty req.request_id
    then send c (error [] (text "BAD_REQUEST") (text "request_id is required"))
    else if not c.session.authed
    then send c
        (error req.request_id (text "UNAUTHENTICATED") (text "authenticate before chatting"))
    else begun c req (begin c.registry req.request_id)

unfoldable pub handle_reset : Services → Conn → ResetRequest → Conn
handle_reset s c req =
    if is_empty req.request_id
    then send c (error [] (text "BAD_REQUEST") (text "request_id is required"))
    else if not c.session.authed
    then send c
        (error req.request_id (text "UNAUTHENTICATED") (text "authenticate before resetting"))
    else record c {
      effects = c.effects ++ Reset.handle_reset s.handler s.deleted c.session.player_id req;
    }

unfoldable pub dispatch : Services → Conn → ClientEnvelope → Conn
unfolding handle_auth handle_chat handle_reset
dispatch s c ping = send c pong
dispatch s c (auth req) = handle_auth s c req.session_token
dispatch s c (stop id) = record c { registry = (Mux.stop c.registry id).1 }
dispatch s c (chat req) = handle_chat c req
dispatch s c (reset req) = handle_reset s c req
dispatch s c unknown = c

-- A chat's goroutine returns: a step of its deferred done function.
unfoldable pub finish_chat : DoneStep → Conn → Chat → Conn
finish_chat step c t = record c {
  registry = done_step step c.registry t.request.request_id t.context;
}

-- The deferred function of ServeConn, up to the wait.
unfoldable pub shut : Conn → Conn
shut c = record c { registry = cancel_all c.registry }
