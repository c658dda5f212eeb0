-- ===== src/Listener/Tests.antt =====
-- internal/listener/listener.go: a connection on small inputs.
use dify_game_gateway.Listener.Accept.{
  Accepted, connected, failed, new_server, next_conn_id, accept_from, listen_and_serve,
}
use dify_game_gateway.Listener.Accepting.{ids, accept_from-AllDiffer}
use dify_game_gateway.Base.{
  ℕ, text, List, [], ◌∷◌, Option, none, some, true, false, refl, ◌≡◌, arith, if◌then◌else◌, ◌==◌,
  lookup, AllDiffer, decimal, All,
}
use dify_game_gateway.Wire.{auth, AuthRequest, ClientEnvelope, ChatRequest, ping, chat, stop}
use dify_game_gateway.Moderation.{allow_all}
use dify_game_gateway.Mux.{new_registry, cancels, unregisters, leaves, is_drained, begin}
use dify_game_gateway.Session.{failed, token, bind_session, bind}
use dify_game_gateway.Pipeline.Tally.{count, is_delete}
use dify_game_gateway.Listener.{
  Services, open_conn, dispatch, Conn, shut, Chat, finish_chat, handle_auth, handle_chat,
  authenticate,
}
use dify_game_gateway.Listener.Access.{dispatch_all, dispatch_all-IsUntouched}
use mathlib.Core.List.{Memᴰ}
use dify_game_gateway.Codec.{closed}
use dify_game_gateway.Listener.Serve
use dify_game_gateway.Listener.Serve.{serve_conn}
use dify_game_gateway.Codec.Sequence.{IsWritable, write_each}
use dify_game_gateway.Listener.Reading.{serve_conn_ends, serve_conn-write_each}
use dify_game_gateway.Listener.Requests.{
  here, next, receive, finish, close, IsSound, IsOver, Reach-IsSound,
}

abbrev services : Services
services = record {
  handler = record {
    has_auth = true;
    has_limiter = true;
    has_store = true;
    has_assembler = true;
    has_dify = true;
    moderator = allow_all;
    lock_ttl = 30_000_000_000;
  };
  parse = λ t. failed;
  deleted = none;
}

abbrev hello : ChatRequest
hello = record {
  request_id = text "r1";
  npc_id = text "smith";
  query = text "Hi";
  conversation_id = [];
  context = [];
}

abbrev script : List ClientEnvelope
script = ping ∷ chat hello ∷ stop (text "r1") ∷ []

dispatch_all-IsUntouched_example :
    let c = dispatch_all services (open_conn (text "c1") (text "127.0.0.1")) script in
    (c.started ≡ []) × (c.registry ≡ new_registry) × (count is_delete c.effects ≡ 0)
unfolding open_conn dispatch
dispatch_all-IsUntouched_example =
    dispatch_all-IsUntouched services (text "c1") (text "127.0.0.1") script refl

abbrev opened : Conn
opened = open_conn (text "c1") (text "127.0.0.1")

abbrev trusting : Services
trusting = record services { parse = λ t. token true t }

abbrev hero : AuthRequest
hero = record { session_token = text "t"; player_id = text "hero" }

abbrev chatted : Conn
chatted = dispatch trusting (dispatch trusting opened (auth hero)) (chat hello)

abbrev hello_chat : Chat
hello_chat = record { context = 0; request = hello }

-- The done function of a chat has cancelled its context when the connection is closed, and then takes its other
-- steps.
Reach-IsSound_example :
    let c = finish_chat cancels chatted hello_chat in
    let d = finish_chat leaves (finish_chat unregisters (shut c) hello_chat) hello_chat in
    IsSound d
    × (is_drained d.registry ≡ true
        → (d.registry.inflight ≡ [])
          × (d.registry.leaving ≡ [])
          × All (IsOver d.registry) d.started)
unfolding dispatch handle_auth handle_chat open_conn finish_chat shut authenticate bind_session bind
    begin lookup
Reach-IsSound_example = Reach-IsSound trusting (text "c1") (text "127.0.0.1") (
    next
      (next
        (next
          (next (next (next here (receive (auth hero))) (receive (chat hello)))
            (finish cancels hello_chat (Memᴰ.head refl)))
          close)
        (finish unregisters hello_chat (Memᴰ.head refl)))
      (finish leaves hello_chat (Memᴰ.head refl)))

-- An encoding that has the envelope `ping` only.
abbrev marshal : ClientEnvelope → Option (List ℕ)
marshal ping = some (7 ∷ [])
marshal _ = none

abbrev unmarshal : List ℕ → Option ClientEnvelope
unmarshal (c ∷ []) = if c == 7 then some ping else none
unmarshal _ = none

abbrev calm : ℕ → Serve.Turn
calm n = record { deadline_fails = false; cancelled = false }

-- Bytes that end in the middle of a frame.
serve_conn_ends_example :
    (es : List ClientEnvelope) × (serve_conn services unmarshal calm
        (text "c1")
        (text "127.0.0.1")
        (record { pending = 0 ∷ 0 ∷ 0 ∷ 1 ∷ 7 ∷ 0 ∷ []; ending = closed })
      ≡ some (shut (dispatch_all services opened es)))
serve_conn_ends_example =
    serve_conn_ends services unmarshal calm (text "c1") (text "127.0.0.1")
      (record { pending = 0 ∷ 0 ∷ 0 ∷ 1 ∷ 7 ∷ 0 ∷ []; ending = closed })

writable : IsWritable marshal unmarshal ping
writable = (7 ∷ [], refl, refl, omega arith)

serve_conn-write_each_example :
    serve_conn services unmarshal calm
      (text "c1")
      (text "127.0.0.1")
      (record { pending = write_each marshal (ping ∷ ping ∷ []) []; ending = closed })
    ≡ some (shut (dispatch_all services opened (ping ∷ ping ∷ [])))
serve_conn-write_each_example =
    serve_conn-write_each services marshal unmarshal calm (text "c1") (text "127.0.0.1")
      (ping ∷ ping ∷ []) (writable, (writable, tt)) (λ n. (refl, refl))

-- Two clients, a timeout between them, and an error.
abbrev accepts : List Accepted
accepts = connected (text "10.0.0.1") ∷ failed false true ∷ connected (text "10.0.0.2") ∷ []

accept_from-AllDiffer_example : AllDiffer (ids (accept_from new_server accepts).0)
accept_from-AllDiffer_example = accept_from-AllDiffer new_server accepts (omega arith)

ids_test : ids (listen_and_serve new_server true accepts).0 ≡ text "conn-1" ∷ text "conn-2" ∷ []
unfolding listen_and_serve accept_from new_server next_conn_id decimal
ids_test = refl
