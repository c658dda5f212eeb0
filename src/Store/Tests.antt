-- ===== src/Store/Tests.antt =====
-- internal/store/store.go: the store on values that are held in memory, with the time of each.
use dify_game_gateway.Base.{
  Text, text, true, false, List, [], ◌∷◌, none, is_some, if◌then◌else◌, ◌≡◌, refl, lookup, insert,
  delete, lookup-insert, lookup-delete, text_eq, some, ℕ, Option, inl, inr, Bool-cases, arith,
}
use dify_game_gateway.Base.Int.{pos}
use dify_game_gateway.Limiter.Guards.{delivered, lost_after}
use dify_game_gateway.Store.{
  Values, lock_key, release_script, Turn, acquire_conversation_lock, release_once, alive,
}
use dify_game_gateway.Store.Lock.{Op, try_lock, let_go, set_op}
use dify_game_gateway.Store.Waiting.{acquire_conversation_lock-waits}

record Entry : Type 0 where
  value : Text
  set_at : ℕ
  ttl : ℕ

abbrev live : ℕ → Option Entry → Option Text
live now none = none
live now (some e) = if alive e.set_at e.ttl now then some e.value else none

abbrev Memory : Type 0
Memory = List (Text × Entry)

abbrev stored : ℕ → Text → Text → ℕ → Memory → Memory
stored now key value ttl db = insert key (record { value = value; set_at = now; ttl = ttl }) db

get-stored :
    (now later : ℕ) (key other value : Text) (ttl : ℕ) (db : Memory)
    → live later (lookup other (stored now key value ttl db)) ≡ (
        if text_eq key other
        then if alive now ttl later then some value else none
        else live later (lookup other db))
get-stored now later key other value ttl db =
    let found = lookup-insert key other (record { value = value; set_at = now; ttl = ttl }) db in
    elim (Bool-cases (text_eq key other)) [
      | inl same ↦ rw (found, same) refl
      | inr differ ↦ rw (found, differ) refl
    ]

get-delete :
    (now : ℕ) (key other : Text) (db : Memory)
    → live now (lookup other (delete key db))
      ≡ (if text_eq key other then none else live now (lookup other db))
get-delete now key other db = elim (Bool-cases (text_eq key other)) [
  | inl same ↦ rw (lookup-delete key other db, same) refl
  | inr differ ↦ rw (lookup-delete key other db, differ) refl
]

abbrev memory : Values
memory = record {
  Db = Memory;
  get = λ now key db. live now (lookup key db);
  set = stored;
  set_nx = λ now key value ttl db.
      if is_some (live now (lookup key db))
      then (false, db)
      else (true, stored now key value ttl db);
  del = λ key db. delete key db;
  get-set = λ now later key other value ttl db h. get-stored now later key other value ttl db;
  get-del = get-delete;
  set_nx-set = λ now key value ttl db. refl;
}

-- The others try the same lock, release it with a token of their own, and store a conversation, one unit of time
-- after the other.
abbrev meanwhile : List (ℕ × Op memory)
meanwhile =
    (1, try_lock lost_after (text "hero") (text "smith") (text "t12") 5)
    ∷ (1, let_go delivered (text "hero") (text "smith") (text "t12"))
    ∷ (1, set_op delivered (text "hero") (text "smith") (text "conv") (pos 9))
    ∷ []

abbrev turn : ℕ → (Memory → Memory) → Turn memory
turn now others = record { now = now; others = others; reply = delivered; context_error = none }

-- Another client holds the lock at the first two turns and lets it go before the third.
acquire_conversation_lock-waits_example :
    let key = lock_key (text "hero") (text "smith") in
    let held : Memory = (key, record { value = text "t2"; set_at = 0; ttl = 90 }) ∷ [] in
    let row =
      turn 20 (λ db. db)
      ∷ turn 40 (λ db. db)
      ∷ turn 60 (release_script memory 50 key (text "t2"))
      ∷ [] in
    let (answer, db') =
      acquire_conversation_lock memory (some (text "t1")) (text "hero") (text "smith") 5 row held in
    let opened = release_once memory 63 delivered key (text "t1") (false, db') in
    (answer ≡ some none)
    × (live 63 (lookup key db') ≡ some (text "t1"))
    × (live 63 (lookup key opened.1) ≡ none)
    × (release_once memory 70 lost_after key (text "t1") opened ≡ opened)
unfolding lookup release_script delete text_eq
acquire_conversation_lock-waits_example =
    let key = lock_key (text "hero") (text "smith") in
    acquire_conversation_lock-waits memory (text "hero") (text "smith") (text "t1") 5
      (turn 20 (λ db. db) ∷ turn 40 (λ db. db) ∷ []) []
      (turn 60 (release_script memory 50 key (text "t2")))
      ((key, record { value = text "t2"; set_at = 0; ttl = 90 }) ∷ []) 63 70 lost_after
      (refl, refl, refl, (refl, refl, refl, tt)) refl refl (omega arith) refl
