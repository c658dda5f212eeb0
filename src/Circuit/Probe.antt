-- ===== src/Circuit/Probe.antt =====
-- internal/limiter/circuit.go: the admission of calls and of probes.
use dify_game_gateway.Base.{
  ℕ, ◌≢◌, List, ◌<◌, ◌≡◌, Bool, ◌+◌, ◌∷◌, false, arith, true, All, ◌≤◌, [], refl,
}
use dify_game_gateway.Circuit.{
  closed, half_open, open_, ready, allow, Breaker, cancel_probe, record_outcome,
}
use dify_game_gateway.Circuit.Invariant.{
  IsValid, allow-IsValid, cancel_probe-IsValid, record_outcome-IsValid,
}

-- What ready() announces is what allow() then does at the same time.
pub allow-eq-ready :
    (c : Breaker) (checked_at started_at : ℕ)
    → (allow c checked_at started_at).0 ≡ ready c checked_at
unfolding allow ready
allow-eq-ready c checked_at started_at = ground arith

-- A refused call changes nothing.
pub allow_refused :
    (c : Breaker) (checked_at started_at : ℕ)
    → (allow c checked_at started_at).0 ≡ false
    → (allow c checked_at started_at).1 ≡ c
unfolding allow
allow_refused c checked_at started_at h = ground arith

-- At most one probe is out: once a call has passed a breaker that is not closed, the next is
-- refused as long as less than the open duration has gone by since that probe's start.
pub allow_single_probe :
    (c : Breaker) (checked_at started_at later started_later : ℕ)
    → IsValid c
    → c.state ≢ closed
    → (allow c checked_at started_at).0 ≡ true
    → later < started_at + c.cfg.open_duration
    → (allow (allow c checked_at started_at).1 later started_later).0 ≡ false
unfolding allow
allow_single_probe c checked_at started_at later started_later v h passed soon = ground arith

-- A breaker cannot stay shut for ever: whatever was lost on the way, it lets a call pass once the
-- open duration has gone by since it opened and since the last probe started.
pub allow_recovers :
    (c : Breaker) (checked_at started_at : ℕ)
    → c.opened_at + c.cfg.open_duration ≤ checked_at
    → c.probe_started_at + c.cfg.open_duration ≤ checked_at
    → (allow c checked_at started_at).0 ≡ true
unfolding allow
allow_recovers c checked_at started_at h k = ground arith

-- A probe that is given up does not block the next one: after cancelProbe a half-open breaker is
-- ready at any time.
pub ready-cancel_probe :
    (c : Breaker) (now : ℕ) → c.state ≡ half_open → ready (cancel_probe c) now ≡ true
unfolding ready cancel_probe
ready-cancel_probe c now h = ground arith

-- The calls that goroutines make of a breaker, in the order in which they take its mutex.
pub data Call : Type 0 where
  allow_call : (checked_at started_at : ℕ) → Call
  cancel_call : Call
  record_call : (success : Bool) (now : ℕ) → Call

pub call : Breaker → Call → Breaker
call c (allow_call checked_at started_at) = (allow c checked_at started_at).1
call c cancel_call = cancel_probe c
call c (record_call success now) = record_outcome c success now

pub call_all : Breaker → List Call → Breaker
call_all c [] = c
call_all c (m ∷ ms) = call_all (call c m) ms

call-IsValid : (c : Breaker) (m : Call) → IsValid c → IsValid (call c m)
unfolding call
call-IsValid c (allow_call checked_at started_at) v = allow-IsValid c checked_at started_at v
call-IsValid c cancel_call v = cancel_probe-IsValid c v
call-IsValid c (record_call success now) v = record_outcome-IsValid c success now v

-- Whatever calls are made, in whatever order, a valid breaker stays valid.
pub call_all-IsValid : (c : Breaker) (ms : List Call) → IsValid c → IsValid (call_all c ms)
unfolding call_all
call_all-IsValid c [] v = v
call_all-IsValid c (m ∷ ms) v = call_all-IsValid (call c m) ms (call-IsValid c m v)

-- The clock of a call that could let it pass has not reached the limit.
abbrev pub IsBefore : ℕ → Call → Type 0
IsBefore limit (allow_call checked_at _) = checked_at < limit
IsBefore limit _ = Unit

call_while_open :
    (c : Breaker) (m : Call)
    → 0 < c.cfg.open_duration
    → c.state ≡ open_
    → IsBefore (c.opened_at + c.cfg.open_duration) m
    → call c m ≡ c
unfolding call allow cancel_probe record_outcome
call_while_open c (allow_call checked_at started_at) d h soon = ground arith
call_while_open c cancel_call d h soon = ground arith
call_while_open c (record_call success now) d h soon = ground arith

-- While the open duration runs, no row of calls has any effect on a valid breaker that is open: no call passes,
-- and late results neither close it nor push its end away.
pub call_all_while_open :
    (c : Breaker) (ms : List Call)
    → IsValid c
    → c.state ≡ open_
    → All (IsBefore (c.opened_at + c.cfg.open_duration)) ms
    → call_all c ms ≡ c
unfolding call_all
call_all_while_open c [] v h soon = refl
call_all_while_open c (m ∷ ms) v h (soon, later) =
    rw (call_while_open c m v.sound.duration_pos h soon) (call_all_while_open c ms v h later)
