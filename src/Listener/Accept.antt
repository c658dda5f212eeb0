-- ===== src/Listener/Accept.antt =====
-- internal/listener/listener.go, New, ListenAndServe and nextConnID: the accept loop. The sockets are
-- the row of what Accept gives.
use dify_game_gateway.Base.{
  ℕ, [], ◌∷◌, ◌++◌, ◌+◌, ◌%◌, ◌^◌, Text, text, List, Bool, if◌then◌else◌, decimal,
}

-- An idle timeout is in nanoseconds.
pub record Server : Type 0 where
  pub idle_timeout : ℕ
  pub conn_seq : ℕ

abbrev default_idle_timeout : ℕ
default_idle_timeout = 60_000_000_000

unfoldable pub new_server : Server
new_server = record { idle_timeout = default_idle_timeout; conn_seq = 0 }

unfoldable pub set_idle_timeout : ℕ → Server → Server
set_idle_timeout d s = record s { idle_timeout = d }

-- The counter is a uint64.
unfoldable pub next_conn_id : Server → Text × Server
next_conn_id s =
    let n = (s.conn_seq + 1) % 2 ^ 64 in (text "conn-" ++ decimal n, record s { conn_seq = n })

-- What Accept gives: a connection, or an error, with whether the context is done by then and whether the
-- error is a timeout.
pub data Accepted : Type 0 where
  connected : (remote_addr : Text) → Accepted
  failed : (cancelled timeout : Bool) → Accepted

-- How far the loop has come: it ended without an error or with one, or it waits in Accept.
pub data LoopEnd : Type 0 where
  stopped broken waiting : LoopEnd

-- A connection that is served, with its id. A connection takes its id when its goroutine starts, here in the order
-- of the connections.
pub record Served : Type 0 where
  pub conn_id : Text
  pub remote_addr : Text

unfoldable pub accept_from : Server → List Accepted → List Served × LoopEnd
unfolding next_conn_id
accept_from s [] = ([], waiting)
accept_from s (connected remote_addr ∷ row) =
    let (conn_id, s') = next_conn_id s in
    let (served, outcome) = accept_from s' row in
    (record { conn_id = conn_id; remote_addr = remote_addr } ∷ served, outcome)
accept_from s (failed cancelled timeout ∷ row) =
    let rest = accept_from s row in
    if cancelled then ([], stopped) else if timeout then rest else ([], broken)

unfoldable pub listen_and_serve : Server → Bool → List Accepted → List Served × LoopEnd
unfolding accept_from
listen_and_serve s listens row = if listens then accept_from s row else ([], broken)
