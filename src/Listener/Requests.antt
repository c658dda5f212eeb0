-- ===== src/Listener/Requests.antt =====
-- internal/listener/listener.go: the requests of a connection, with the read loop and the goroutines
-- of the chats interleaved.
use dify_game_gateway.Mux.Invariant.{
  IsTicket, begin-IsTicket, done_step-IsTicket, member-cancel_each, IsValid, done_step-IsValid,
  stop-IsValid, cancel_all-IsValid, new_registry-IsValid, begin-IsValid,
}
use dify_game_gateway.Mux.{Registry, cancel_all, begin, DoneStep, done_step, member, is_drained}
use dify_game_gateway.Mux.Drain.{is_drained_iff}
use dify_game_gateway.Mux
use dify_game_gateway.Base.{
  lookup, [], ◌∷◌, none, some, true, false, refl, inl, inr, List, Text, ℕ, All, arith, ◌≡◌, Option,
  Bool-cases, subst, lookup-insert, is_empty, sym, text_eq_refl, ap₂, if◌then◌else◌, text, not,
}
use dify_game_gateway.Wire.{
  auth, chat, stop, ping, reset, unknown, error, ChatRequest, ClientEnvelope, ResetRequest,
}
use dify_game_gateway.Listener.{
  Services, handle_chat, handle_reset, Registry, begun, Conn, cancel_all, Chat, ChatRequest,
  ClientEnvelope, dispatch, begin, finish_chat, shut, ResetRequest, open_conn, send,
}
use mathlib.Core.List.{Memᴰ}

-- The read loop takes an envelope, the done function of a chat that was started takes a step, or the connection is
-- being closed.
pub data Step (s : Services) (c : Conn) : Conn → Type 0 where
  receive : (e : ClientEnvelope) → Step s c (dispatch s c e)
  finish : (step : DoneStep) (t : Chat) → Memᴰ t c.started → Step s c (finish_chat step c t)
  close : Step s c (shut c)

pub data Reach (s : Services) (c : Conn) : Conn → Type 0 where
  here : Reach s c c
  next : {d e : Conn} → Reach s c d → Step s d e → Reach s c e

abbrev pub Ticketed : Registry → List Chat → Type 0
Ticketed r chats = All (λ t. IsTicket r t.request.request_id t.context) chats

pub record IsSound (c : Conn) : Type 0 where
  pub valid : IsValid c.registry
  pub ticketed : Ticketed c.registry c.started

mem-Ticketed :
    (r : Registry) (t : Chat) (chats : List Chat)
    → Memᴰ t chats
    → Ticketed r chats
    → IsTicket r t.request.request_id t.context
mem-Ticketed r t [] m h = elim m [ ]
mem-Ticketed r t (u ∷ chats) (Memᴰ.head e) h =
    subst (λ (v : Chat). IsTicket r v.request.request_id v.context) (sym e) h.0
mem-Ticketed r t (u ∷ chats) (Memᴰ.tail m) h = mem-Ticketed r t chats m h.1

begin-Ticketed :
    (r : Registry) (id : Text) (chats : List Chat)
    → Ticketed r chats
    → Ticketed (begin r id).1 chats
begin-Ticketed r id [] h = tt
begin-Ticketed r id (t ∷ chats) (h, hs) =
    (begin-IsTicket r t.request.request_id id t.context h, begin-Ticketed r id chats hs)

done_step-Ticketed :
    (step : DoneStep) (r : Registry) (id : Text) (context : ℕ) (chats : List Chat)
    → IsValid r
    → IsTicket r id context
    → Ticketed r chats
    → Ticketed (done_step step r id context) chats
done_step-Ticketed step r id context [] v u h = tt
done_step-Ticketed step r id context (t ∷ chats) v u (h, hs) = (
  done_step-IsTicket step r t.request.request_id id t.context context v u h,
  done_step-Ticketed step r id context chats v u hs,
)

stop-IsTicket :
    (r : Registry) (id other : Text) (context : ℕ)
    → IsTicket r id context
    → IsTicket (Mux.stop r other).1 id context
unfolding Mux.stop
stop-IsTicket r id other context h = unfold member in ground arith

cancel_all-IsTicket :
    (r : Registry) (id : Text) (context : ℕ)
    → IsTicket r id context
    → IsTicket (cancel_all r) id context
unfolding cancel_all
cancel_all-IsTicket r id context (inl in_flight) = inl in_flight
cancel_all-IsTicket r id context (inr (removed, told)) =
    inr (removed, member-cancel_each context r.inflight r.cancelled told)

stop-Ticketed :
    (r : Registry) (id : Text) (chats : List Chat)
    → Ticketed r chats
    → Ticketed (Mux.stop r id).1 chats
stop-Ticketed r id [] h = tt
stop-Ticketed r id (t ∷ chats) (h, hs) =
    (stop-IsTicket r t.request.request_id id t.context h, stop-Ticketed r id chats hs)

cancel_all-Ticketed :
    (r : Registry) (chats : List Chat) → Ticketed r chats → Ticketed (cancel_all r) chats
cancel_all-Ticketed r [] h = tt
cancel_all-Ticketed r (t ∷ chats) (h, hs) =
    (cancel_all-IsTicket r t.request.request_id t.context h, cancel_all-Ticketed r chats hs)

begin-IsTicket_new :
    (r : Registry) (id : Text) (context : ℕ)
    → (begin r id).0 ≡ some context
    → IsTicket (begin r id).1 id context
unfolding begin
begin-IsTicket_new r id context h =
    ground (arith, lookup-insert id id r.next r.inflight, text_eq_refl id)

begun-IsSound :
    (c : Conn) (req : ChatRequest) (o : Option ℕ) (r : Registry)
    → IsValid r
    → Ticketed r c.started
    → ((context : ℕ) → o ≡ some context → IsTicket r req.request_id context)
    → IsSound (begun c req (o, r))
unfolding begun
begun-IsSound c req none r v t new = record { valid = v; ticketed = t }
begun-IsSound c req (some context) r v t new = record {
  valid = v;
  ticketed = (new context refl, t);
}

handle_chat-begun :
    (c : Conn) (req : ChatRequest)
    → is_empty req.request_id ≡ false
    → c.session.authed ≡ true
    → handle_chat c req ≡ begun c req (begin c.registry req.request_id)
unfolding handle_chat
handle_chat-begun c req e h =
    ap₂
      (λ unnamed authed.
        if unnamed
        then send c (error [] (text "BAD_REQUEST") (text "request_id is required"))
        else if not authed
        then send c
            (error req.request_id (text "UNAUTHENTICATED") (text "authenticate before chatting"))
        else begun c req (begin c.registry req.request_id))
      e h

chat-IsSound : (c : Conn) (req : ChatRequest) → IsSound c → IsSound (handle_chat c req)
unfolding handle_chat
chat-IsSound c req i = elim (Bool-cases (is_empty req.request_id)) [
  | inl e ↦ rw e (record { valid = i.valid; ticketed = i.ticketed })
  | inr e ↦ elim (Bool-cases c.session.authed) [
    | inr no_ ↦ rw (e, no_) (record { valid = i.valid; ticketed = i.ticketed })
    | inl yes_ ↦
        let begun_ =
          begun-IsSound c req _ _ (begin-IsValid c.registry req.request_id i.valid)
            (begin-Ticketed c.registry req.request_id c.started i.ticketed)
            (begin-IsTicket_new c.registry req.request_id) in
        subst IsSound (sym (handle_chat-begun c req e yes_)) begun_
  ]
]

reset-IsSound :
    (s : Services) (c : Conn) (req : ResetRequest) → IsSound c → IsSound (handle_reset s c req)
unfolding handle_reset
reset-IsSound s c req i = elim (Bool-cases (is_empty req.request_id)) [
  | inl e ↦ rw e (record { valid = i.valid; ticketed = i.ticketed })
  | inr e ↦ elim (Bool-cases c.session.authed) [
    | inl yes_ ↦ rw (e, yes_) (record { valid = i.valid; ticketed = i.ticketed })
    | inr no_ ↦ rw (e, no_) (record { valid = i.valid; ticketed = i.ticketed })
  ]
]

dispatch-IsSound :
    (s : Services) (c : Conn) (e : ClientEnvelope) → IsSound c → IsSound (dispatch s c e)
unfolding dispatch
dispatch-IsSound s c ping i = record { valid = i.valid; ticketed = i.ticketed }
dispatch-IsSound s c (auth req) i = record { valid = i.valid; ticketed = i.ticketed }
dispatch-IsSound s c (stop id) i = record {
  valid = stop-IsValid c.registry id i.valid;
  ticketed = stop-Ticketed c.registry id c.started i.ticketed;
}
dispatch-IsSound s c (chat req) i = chat-IsSound c req i
dispatch-IsSound s c (reset req) i = reset-IsSound s c req i
dispatch-IsSound s c unknown i = i

Step-IsSound : (s : Services) {c d : Conn} → Step s c d → IsSound c → IsSound d
unfolding finish_chat shut
Step-IsSound s {c = c} (receive e) i = dispatch-IsSound s c e i
Step-IsSound s {c = c} (finish step t m) i =
    let mine = mem-Ticketed c.registry t c.started m i.ticketed in
    let id = t.request.request_id in
    record {
      valid = done_step-IsValid step c.registry id t.context i.valid mine;
      ticketed = done_step-Ticketed step c.registry id t.context c.started i.valid mine i.ticketed;
    }
Step-IsSound s {c = c} close i = record {
  valid = cancel_all-IsValid c.registry i.valid;
  ticketed = cancel_all-Ticketed c.registry c.started i.ticketed;
}

reached :
    (s : Services) (id remote_addr : Text) {c : Conn}
    → Reach s (open_conn id remote_addr) c
    → IsSound c
unfolding open_conn
reached s id remote_addr here = record { valid = new_registry-IsValid; ticketed = tt }
reached s id remote_addr (next r st) = Step-IsSound s st (reached s id remote_addr r)

-- The chat's done function has cancelled its context and deleted its request.
abbrev pub IsOver : Registry → Chat → Type 0
IsOver r t = (member t.context r.removed ≡ true) × (member t.context r.cancelled ≡ true)

drained-IsOver :
    (r : Registry) (chats : List Chat) → r.inflight ≡ [] → Ticketed r chats → All (IsOver r) chats
drained-IsOver r [] e h = tt
drained-IsOver r (t ∷ chats) e (inl in_flight, hs) =
    absurd (unfold lookup in cc (rw e at in_flight))
drained-IsOver r (t ∷ chats) e (inr over, hs) = (over, drained-IsOver r chats e hs)

-- However a connection's envelopes, the steps of the done functions of its chats and its closing interleave, from
-- its opening on: the count that Wait waits for is the number of requests in flight and of done functions that have
-- deleted theirs and not yet called wg.Done, no request id is in flight twice, what a called done function stands for
-- is cancelled, and every chat that was started is in flight under its own context or has had it cancelled and its
-- request deleted. When Wait returns, no request is in flight, no done function has still to call wg.Done, and every
-- chat that was started has had its context cancelled and its request deleted.
pub Reach-IsSound :
    (s : Services) (id remote_addr : Text) {c : Conn}
    → Reach s (open_conn id remote_addr) c
    → IsSound c
      × (is_drained c.registry ≡ true
          → (c.registry.inflight ≡ [])
            × (c.registry.leaving ≡ [])
            × All (IsOver c.registry) c.started)
Reach-IsSound s id remote_addr {c = c} r =
    let sound = reached s id remote_addr r in
    let drained = is_drained_iff c.registry sound.valid in
    (
      sound,
      λ done_.
          let (none_in_flight, none_leaving) = drained.0 done_ in
          (
            none_in_flight,
            none_leaving,
            drained-IsOver c.registry c.started none_in_flight sound.ticketed,
          ),
    )
