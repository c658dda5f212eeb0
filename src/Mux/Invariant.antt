-- ===== src/Mux/Invariant.antt =====
-- internal/mux/mux.go: the state between two calls, and the done functions that are out.
use dify_game_gateway.Mux.{
  Registry, begin, cancel_all, cancel_each, stop_with, remove_first, DoneStep, cancels, unregisters,
  leaves, call_done, unregister, leave, done_step, new_registry, stop, member, begin_with,
}
use dify_game_gateway.Base.{
  ◌+◌, List, [], ◌∷◌, ◌==◌, ◌&&◌, not, none, some, true, inl, inr, Text, ◌≡◌, arith, Option-cases,
  length, ℕ, DistinctKeys, lookup-delete, lookup-insert, lookup, Bool-cases, text_eq_iff,
  AbsentKey-lookup, ◌⊎◌, length-delete, DistinctKeys-delete, text_eq_refl, DistinctKeys-insert,
  length-insert,
}

pub record IsValid (r : Registry) : Type 0 where
  pub counted : r.waiting ≡ length r.inflight + length r.leaving
  pub distinct : DistinctKeys r.inflight
  pub told : (context : ℕ) → member context r.finished ≡ true → member context r.cancelled ≡ true

-- A done function that Begin has given out for a request: the request is still in flight under its
-- own context, or the function has cancelled that context and deleted the request.
abbrev pub IsTicket : Registry → Text → ℕ → Type 0
IsTicket r id context =
    (lookup id r.inflight ≡ some context)
    ⊎ ((member context r.removed ≡ true) × (member context r.cancelled ≡ true))

pub new_registry-IsValid : IsValid new_registry
unfolding new_registry member
new_registry-IsValid = record { counted = omega arith; distinct = tt; told = λ context h. cc }

-- Begin refuses a request id that is in flight and changes nothing; any other it registers under a
-- new context.
pub begin_lem :
    (r : Registry) (id : Text)
    → ((context : ℕ) → lookup id r.inflight ≡ some context → begin r id ≡ (none, r))
      × (lookup id r.inflight ≡ none
          → ((begin r id).0 ≡ some r.next) × (lookup id (begin r id).1.inflight ≡ some r.next))
unfolding begin
begin_lem r id = (
  λ context h. rw (h, begin_with),
  λ h. ground (arith, lookup-insert id id r.next r.inflight, text_eq_refl id),
)

pub begin-IsValid : (r : Registry) (id : Text) → IsValid r → IsValid (begin r id).1
unfolding begin
begin-IsValid r id v = elim (Option-cases (lookup id r.inflight)) [
  | inl new ↦
      let absent = AbsentKey-lookup id r.inflight new in
      let distinct = DistinctKeys-insert id r.next r.inflight absent v.distinct in
      let longer = length-insert id r.next r.inflight absent in
      rw (new, begin_with)
        (record { counted = omega (arith, v.counted); distinct = distinct; told = v.told })
  | inr (context, old) ↦ rw (old, begin_with) v
]

length-remove_first :
    (n : ℕ) (ms : List ℕ) → member n ms ≡ true → length (remove_first n ms) + 1 ≡ length ms
unfolding member remove_first
length-remove_first n [] h = cc
length-remove_first n (m ∷ ms) h = elim (Bool-cases (m == n)) [
  | inl same ↦ rw same (omega arith)
  | inr differ ↦ rw differ (omega (arith, length-remove_first n ms (ground arith)))
]

call_done-IsValid : (r : Registry) (context : ℕ) → IsValid r → IsValid (call_done r context)
unfolding call_done member
call_done-IsValid r context v = elim (Bool-cases (member context r.finished)) [
  | inl ran ↦ rw ran v
  | inr open_ ↦ rw open_ (record {
    counted = v.counted;
    distinct = v.distinct;
    told = λ other h. ground (arith, v.told other);
  })
]

unregister-IsValid :
    (r : Registry) (id : Text) (context : ℕ)
    → IsValid r
    → IsTicket r id context
    → IsValid (unregister r id context)
unfolding unregister
unregister-IsValid r id context v t =
    elim (Bool-cases (member context r.finished && not (member context r.removed))) [
      | inl now ↦
          let mine : lookup id r.inflight ≡ some context = ground arith in
          let shorter = length-delete id context r.inflight v.distinct mine in
          rw now (record {
            counted = omega (arith, v.counted, shorter);
            distinct = DistinctKeys-delete id r.inflight v.distinct;
            told = v.told;
          })
      | inr not_yet ↦ rw not_yet v
    ]

leave-IsValid : (r : Registry) (context : ℕ) → IsValid r → IsValid (leave r context)
unfolding leave
leave-IsValid r context v = elim (Bool-cases (member context r.leaving)) [
  | inl now ↦
      let shorter = length-remove_first context r.leaving now in
      rw now (record {
        counted = omega (arith, v.counted, shorter);
        distinct = v.distinct;
        told = v.told;
      })
  | inr not_now ↦ rw not_now v
]

pub done_step-IsValid :
    (step : DoneStep) (r : Registry) (id : Text) (context : ℕ)
    → IsValid r
    → IsTicket r id context
    → IsValid (done_step step r id context)
unfolding done_step
done_step-IsValid cancels r id context v t = call_done-IsValid r context v
done_step-IsValid unregisters r id context v t = unregister-IsValid r id context v t
done_step-IsValid leaves r id context v t = leave-IsValid r context v

pub stop-IsValid : (r : Registry) (id : Text) → IsValid r → IsValid (stop r id).1
unfolding stop
stop-IsValid r id v = elim (Option-cases (lookup id r.inflight)) [
  | inl unknown ↦ rw (unknown, stop_with) v
  | inr (context, known) ↦
      rw (known, stop_with)
        (record {
          counted = v.counted;
          distinct = v.distinct;
          told = λ other h. unfold member in ground (arith, v.told other h);
        })
]

pub member-cancel_each :
    (c : ℕ) (es : List (Text × ℕ)) (cancelled : List ℕ)
    → member c cancelled ≡ true
    → member c (cancel_each es cancelled) ≡ true
unfolding cancel_each member
member-cancel_each c [] cancelled h = h
member-cancel_each c ((id, context) ∷ es) cancelled h =
    member-cancel_each c es (context ∷ cancelled) (ground arith)

pub cancel_all-IsValid : (r : Registry) → IsValid r → IsValid (cancel_all r)
unfolding cancel_all
cancel_all-IsValid r v = record {
  counted = v.counted;
  distinct = v.distinct;
  told = λ other h. member-cancel_each other r.inflight r.cancelled (v.told other h);
}

-- A ticket stays one under every call: no later request takes the place of the one that it stands
-- for, so its done function deletes the entry of its own request and no other.
pub begin-IsTicket :
    (r : Registry) (id other : Text) (context : ℕ)
    → IsTicket r id context
    → IsTicket (begin r other).1 id context
unfolding begin
begin-IsTicket r id other context t =
    ground (arith, lookup-insert other id r.next r.inflight, text_eq_iff other id)

pub done_step-IsTicket :
    (step : DoneStep) (r : Registry) (id other : Text) (context finished : ℕ)
    → IsValid r
    → IsTicket r other finished
    → IsTicket r id context
    → IsTicket (done_step step r other finished) id context
unfolding done_step call_done unregister leave member
done_step-IsTicket cancels r id other context finished v t u = ground arith
done_step-IsTicket unregisters r id other context finished v t u =
    ground (arith, lookup-delete other id r.inflight, text_eq_iff other id, v.told finished)
done_step-IsTicket leaves r id other context finished v t u = ground arith
