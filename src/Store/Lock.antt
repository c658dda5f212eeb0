-- ===== src/Store/Lock.antt =====
-- internal/store/store.go: the lock of a conversation's creation among several clients.
use dify_game_gateway.Base.{
  ◌+◌, ◌≤◌, ◌<◌, inl, false, Bool-cases, text_eq, is_some, ℕ, Text, List, [], ◌∷◌, some, ◌≡◌, ◌≢◌,
  All, text_eq, ◌<◌, false, Bool-cases, is_some, inl,
}
use dify_game_gateway.Base.Int.{ℤ}
use dify_game_gateway.Limiter.Guards.{Reply}
use dify_game_gateway.Store.{
  Values, lock_key, set_conversation, delete_conversation, unlock, attempt,
}

module _ (values : Values) where
  open values use {Db, get, set, set_nx, del, get-set, get-del, set_nx-set}

  -- What other clients do while a lock is held: every operation of the store, by whoever holds
  -- another token.
  pub data Op : Type 0 where
    try_lock : Reply → (player npc token : Text) (ttl : ℕ) → Op
    let_go : Reply → (player npc token : Text) → Op
    set_op : Reply → (player npc conversation : Text) → ℤ → Op
    delete_op : Reply → (player npc : Text) → Op

  pub run_op : ℕ → Op → Db → Db
  run_op now (try_lock reply p n token ttl) db =
      (attempt values now reply (lock_key p n) token ttl db).1
  run_op now (let_go reply p n token) db = unlock values now reply (lock_key p n) token db
  run_op now (set_op reply p n c ttl) db = (set_conversation values now reply p n c ttl db).1
  run_op now (delete_op reply p n) db = (delete_conversation values reply p n db).1

  -- A row of operations, each with the time that has gone by since the one before, from a time on.
  pub run_ops : ℕ → List (ℕ × Op) → Db → Db
  run_ops now [] db = db
  run_ops now ((passed, o) ∷ os) db = run_ops (now + passed) os (run_op (now + passed) o db)

  abbrev pub time_of : List (ℕ × Op) → ℕ
  time_of [] = 0
  time_of ((passed, o) ∷ os) = passed + time_of os

  abbrev pub IsForeign : Text → Op → Type 0
  IsForeign token (let_go reply p n other) = other ≢ token
  IsForeign token _ = Unit

  abbrev pub AreForeign : Text → List (ℕ × Op) → Type 0
  AreForeign token os = All (λ (o : ℕ × Op). IsForeign token o.1) os

  -- From a time on and until the end of its time, the key has this value.
  abbrev Held : (key token : Text) (now end : ℕ) → Db → Type 0
  Held key token now end db =
      (later : ℕ) → now ≤ later → later < end → get later key db ≡ some token
