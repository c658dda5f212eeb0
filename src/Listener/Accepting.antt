-- ===== src/Listener/Accepting.antt =====
-- internal/listener/listener.go: what the accept loop serves, and the ids of its connections.
use dify_game_gateway.Base.{
  ℕ, [], ◌∷◌, ◌++◌, ◌+◌, ◌%◌, ◌^◌, ◌≤◌, ◌<◌, ◌≡◌, ap, arith, Text, text, List, Bool, true, false,
  not, ◌||◌, if◌then◌else◌, length, decimal, decimal_injective, All, AllDiffer, text_eq,
  eq_of_text_eq, Bool-cases, inl, inr,
}
use dify_game_gateway.Listener.Accept.{
  Server, Accepted, connected, failed, Served, stopped, broken, next_conn_id, accept_from,
}

abbrev pub ids : List Served → List Text
ids [] = []
ids (c ∷ served) = c.conn_id ∷ ids served

abbrev pub remotes : List Served → List Text
remotes [] = []
remotes (c ∷ served) = c.remote_addr ∷ remotes served

id_injective : (a b : ℕ) → text "conn-" ++ decimal a ≡ text "conn-" ++ decimal b → a ≡ b
id_injective a b same = decimal_injective a b (ground (arith, same))

-- A server that has served `ahead` connections more.
later-differ :
    (n ahead : ℕ) (s : Server) (row : List Accepted)
    → ahead + length row < 2 ^ 64
    → s.conn_seq ≡ (n + ahead) % 2 ^ 64
    → n < 2 ^ 64
    → All (λ (u : Text). text_eq (text "conn-" ++ decimal n) u ≡ false) (ids (accept_from s row).0)
unfolding accept_from next_conn_id
later-differ n ahead s [] fits at small = tt
later-differ n ahead s (connected remote_addr ∷ row) fits at small =
    let next = (s.conn_seq + 1) % 2 ^ 64 in
    (
      elim (Bool-cases (text_eq (text "conn-" ++ decimal n) (text "conn-" ++ decimal next))) [
        | inr differ ↦ differ
        | inl same ↦
            let equal = id_injective n next (eq_of_text_eq _ _ same) in absurd (omega arith)
      ],
      later-differ n (ahead + 1) (next_conn_id s).1 row (omega arith) (omega arith) small,
    )
later-differ n ahead s (failed cancelled timeout ∷ row) fits at small =
    elim (Bool-cases cancelled) [
      | inl e ↦ rw e tt
      | inr e ↦ elim (Bool-cases timeout) [
        | inl f ↦ rw (e, f) (later-differ n ahead s row (omega arith) at small)
        | inr f ↦ rw (e, f) tt
      ]
    ]

-- The connections of a server are told apart: among those of its first 2^64 answers of Accept, no two that are
-- served have the same id.
pub accept_from-AllDiffer :
    (s : Server) (row : List Accepted) → length row ≤ 2 ^ 64 → AllDiffer (ids (accept_from s row).0)
unfolding accept_from next_conn_id
accept_from-AllDiffer s [] fits = tt
accept_from-AllDiffer s (connected remote_addr ∷ row) fits =
    let (conn_id, s') = next_conn_id s in
    (
      later-differ s'.conn_seq 0 s' row (omega arith) (omega arith) (omega arith),
      accept_from-AllDiffer s' row (omega arith),
    )
accept_from-AllDiffer s (failed cancelled timeout ∷ row) fits = elim (Bool-cases cancelled) [
  | inl e ↦ rw e tt
  | inr e ↦ elim (Bool-cases timeout) [
    | inl f ↦ rw (e, f) (accept_from-AllDiffer s row (omega arith))
    | inr f ↦ rw (e, f) tt
  ]
]

-- The connections of a row of answers, and whether it holds nothing else than connections and timeouts.
abbrev pub callers : List Accepted → List Text
callers [] = []
callers (connected remote_addr ∷ row) = remote_addr ∷ callers row
callers (failed _ _ ∷ row) = callers row

abbrev pub GoesOn : List Accepted → Type 0
GoesOn [] = Unit
GoesOn (connected _ ∷ row) = GoesOn row
GoesOn (failed cancelled timeout ∷ row) = (cancelled ≡ false) × (timeout ≡ true) × GoesOn row

-- Neither timeouts nor clients end the accept loop: it serves each connection that comes before the first error that
-- is no timeout or finds the context done, in their order, and there it ends, without an error exactly if the
-- context is done.
pub accept_from-callers :
    (s : Server) (row later : List Accepted) (cancelled timeout : Bool)
    → GoesOn row
    → (cancelled || not timeout) ≡ true
    → (remotes (accept_from s (row ++ failed cancelled timeout ∷ later)).0 ≡ callers row)
      × ((accept_from s (row ++ failed cancelled timeout ∷ later)).1
          ≡ (if cancelled then stopped else broken))
unfolding accept_from next_conn_id
accept_from-callers s [] later cancelled timeout goes_on last = ground arith
accept_from-callers s (connected remote_addr ∷ row) later cancelled timeout goes_on last =
    let (served, ending) =
      accept_from-callers (next_conn_id s).1 row later cancelled timeout goes_on last in
    (ap (λ (ts : List Text). remote_addr ∷ ts) served, ending)
accept_from-callers s (failed _ _ ∷ row) later cancelled timeout (a, b, goes_on) last =
    rw (a, b) (accept_from-callers s row later cancelled timeout goes_on last)
