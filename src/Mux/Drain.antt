-- ===== src/Mux/Drain.antt =====
-- internal/mux/mux.go: the end of a connection, CancelAll and Wait.
use dify_game_gateway.Mux.Invariant.{IsValid, member-cancel_each}
use dify_game_gateway.Mux.{cancel_all, is_drained, Registry, cancel_each, member}
use dify_game_gateway.Base.{
  [], ◌∷◌, some, true, refl, inl, inr, Text, lookup, ℕ, ◌≡◌, List, ◌↔◌, arith, Bool-cases, text_eq,
}

-- Wait returns exactly when no request is in flight and no done function has still to call wg.Done.
pub is_drained_iff :
    (r : Registry) → IsValid r → (is_drained r ≡ true) ↔ ((r.inflight ≡ []) × (r.leaving ≡ []))
unfolding is_drained
is_drained_iff r v = ground (arith, v.counted)

cancel_each-lookup :
    (id : Text) (c : ℕ) (es : List (Text × ℕ)) (cancelled : List ℕ)
    → lookup id es ≡ some c
    → member c (cancel_each es cancelled) ≡ true
unfolding cancel_each lookup
cancel_each-lookup id c [] cancelled h = cc
cancel_each-lookup id c ((j, context) ∷ es) cancelled h = elim (Bool-cases (text_eq j id)) [
  | inl e ↦
      member-cancel_each c es (context ∷ cancelled) (unfold member in ground (arith, rw e at h))
  | inr e ↦ cancel_each-lookup id c es (context ∷ cancelled) (rw e at h)
]

-- A disconnect reaches every request: after CancelAll the context of each request in flight is
-- cancelled, and all of them are still counted until their done functions run.
pub cancel_all_lem :
    (r : Registry) (id : Text) (context : ℕ)
    → lookup id r.inflight ≡ some context
    → (member context (cancel_all r).cancelled ≡ true) × ((cancel_all r).waiting ≡ r.waiting)
unfolding cancel_all
cancel_all_lem r id context h = (cancel_each-lookup id context r.inflight r.cancelled h, refl)
