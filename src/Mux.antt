-- ===== src/Mux.antt =====
-- internal/mux/mux.go, Registry: the requests in flight on a connection. What runs under the registry's mutex is
-- one step; a done function has a part before its lock and one after it, which are steps of their own. A child
-- context is known by a serial number; to call its cancel function is to put the number among the cancelled. Stop and
-- CancelAll cancel when they have unlocked; that is taken into their step, since no method reads what is cancelled.
-- ConnWriter.Send is WriteFrame under a lock (`Codec`).
pub mod Invariant
pub mod Drain
mod Tests
use dify_game_gateway.Base.{
  [], ◌∷◌, none, some, true, false, ℕ, Option, Bool, List, Text, insert, length, lookup, ◌==◌,
  if◌then◌else◌, ◌+◌, ◌||◌, ◌&&◌, not, delete, ◌-◌,
}

pub record Registry : Type 0 where
  pub inflight : List (Text × ℕ)  -- request id to context
  pub waiting : ℕ  -- the WaitGroup
  pub next : ℕ  -- the next context
  pub cancelled : List ℕ
  pub finished : List ℕ  -- contexts whose done function has been called
  pub removed : List ℕ  -- contexts whose done function has deleted the request
  pub leaving : List ℕ  -- those of them whose done function has not called wg.Done yet

unfoldable pub new_registry : Registry
new_registry = record {
  inflight = [];
  waiting = 0;
  next = 0;
  cancelled = [];
  finished = [];
  removed = [];
  leaving = [];
}

unfoldable pub member : ℕ → List ℕ → Bool
member n [] = false
member n (m ∷ ms) = m == n || member n ms

begin_with : Registry → Text → Option ℕ → Option ℕ × Registry
begin_with r id (some existing) = (none, r)
begin_with r id none = (
  some r.next,
  record r { inflight = insert id r.next r.inflight; waiting = r.waiting + 1; next = r.next + 1 },
)

-- Begin: the new context, or none for a duplicate.
unfoldable pub begin : Registry → Text → Option ℕ × Registry
unfolding begin_with
begin r id = begin_with r id (lookup id r.inflight)

cancel : Registry → ℕ → Registry
cancel r context = record r { cancelled = context ∷ r.cancelled }

unfoldable pub remove_first : ℕ → List ℕ → List ℕ
remove_first n [] = []
remove_first n (m ∷ ms) = let rest = remove_first n ms in if m == n then ms else m ∷ rest

-- The steps of the done function that Begin returned with a context: what the Once does first, which is to cancel,
-- the deletion under the lock, and wg.Done. Each is taken once, after the one before it.
pub data DoneStep : Type 0 where
  cancels unregisters leaves : DoneStep

unfoldable pub call_done : Registry → ℕ → Registry
unfolding cancel
call_done r context =
    if member context r.finished
    then r
    else record (cancel r context) { finished = context ∷ r.finished }

unfoldable pub unregister : Registry → Text → ℕ → Registry
unregister r id context =
    if member context r.finished && not (member context r.removed)
    then record r {
      inflight = delete id r.inflight;
      removed = context ∷ r.removed;
      leaving = context ∷ r.leaving;
    }
    else r

unfoldable pub leave : Registry → ℕ → Registry
leave r context =
    if member context r.leaving
    then record r { waiting = r.waiting - 1; leaving = remove_first context r.leaving }
    else r

unfoldable pub done_step : DoneStep → Registry → Text → ℕ → Registry
unfolding call_done unregister leave
done_step cancels r id context = call_done r context
done_step unregisters r id context = unregister r id context
done_step leaves r id context = leave r context

-- A call of the done function that nothing comes between.
unfoldable pub done : Registry → Text → ℕ → Registry
unfolding call_done unregister leave
done r id context = leave (unregister (call_done r context) id context) context

stop_with : Registry → Option ℕ → Bool × Registry
stop_with r none = (false, r)
stop_with r (some context) = (true, cancel r context)

unfoldable pub stop : Registry → Text → Bool × Registry
unfolding stop_with cancel
stop r id = stop_with r (lookup id r.inflight)

unfoldable pub cancel_each : List (Text × ℕ) → List ℕ → List ℕ
cancel_each [] cancelled = cancelled
cancel_each ((id, context) ∷ es) cancelled = cancel_each es (context ∷ cancelled)

unfoldable pub cancel_all : Registry → Registry
unfolding cancel_each
cancel_all r = record r { cancelled = cancel_each r.inflight r.cancelled }

unfoldable pub inflight_count : Registry → ℕ
inflight_count r = length r.inflight

-- Wait returns.
unfoldable pub is_drained : Registry → Bool
is_drained r = r.waiting == 0
