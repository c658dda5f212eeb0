-- ===== src/Store/Waiting.antt =====
-- internal/store/store.go, AcquireConversationLock and releaser: waiting for the lock of a conversation's creation.
use dify_game_gateway.Base.{
  ◌≤◌, ℕ, Text, text_eq_refl, List, [], ◌∷◌, ◌++◌, none, some, is_some, true, false, ◌≡◌, refl,
  arith,
}
use dify_game_gateway.Limiter.Guards.{Reply, delivered}
use dify_game_gateway.Store.{
  alive, Values, lock_key, Turn, acquired, contended, attempt, answer_of, acquire_lock,
  acquire_conversation_lock, release_once, unlock, release_script,
}

module _ (values : Values) where
  open values use {Db, get, set, set_nx, del, get-set, get-del, set_nx-set}

  -- The data at a turn, if all turns before it are refused.
  abbrev pub data_at : List (Turn values) → Db → Db
  data_at [] db = db
  data_at (t ∷ turns) db = data_at turns (t.others db)

  -- Another client holds the lock at each of the turns, and neither Redis nor the context ends the waiting.
  abbrev pub IsRefused : Text → List (Turn values) → Db → Type 0
  IsRefused key [] db = Unit
  IsRefused key (t ∷ turns) db =
      (t.reply ≡ delivered)
      × (t.context_error ≡ none)
      × (is_some (get t.now key (t.others db)) ≡ true)
      × IsRefused key turns (t.others db)

  attempt_refused :
      (now : ℕ) (reply : Reply) (key token : Text) (ttl : ℕ) (db : Db)
      → reply ≡ delivered
      → is_some (get now key db) ≡ true
      → attempt values now reply key token ttl db ≡ (contended, db)
  unfolding attempt
  attempt_refused now reply key token ttl db came held =
      rw (came, attempt, set_nx-set now key token ttl db, held, answer_of) refl

  attempt_free :
      (now : ℕ) (reply : Reply) (key token : Text) (ttl : ℕ) (db : Db)
      → reply ≡ delivered
      → is_some (get now key db) ≡ false
      → attempt values now reply key token ttl db ≡ (acquired, set now key token ttl db)
  unfolding attempt
  attempt_free now reply key token ttl db came free =
      rw (came, attempt, set_nx-set now key token ttl db, free, answer_of) refl

  waits :
      (key token : Text) (ttl : ℕ) (ts rest : List (Turn values)) (db : Db)
      → IsRefused key ts db
      → acquire_lock values key token ttl (ts ++ rest) db
        ≡ acquire_lock values key token ttl rest (data_at ts db)
  unfolding acquire_lock
  waits key token ttl [] rest db h = refl
  waits key token ttl (t ∷ ts) rest db (came, patient, held, later) =
      let refusal = attempt_refused t.now t.reply key token ttl (t.others db) came held in
      rw (◌++◌, acquire_lock, refusal, patient, refusal)
        (waits key token ttl ts rest (t.others db) later)

  release_opens :
      (now : ℕ) (key token : Text) (db : Db)
      → get now key db ≡ some token
      → get now key (release_script values now key token db) ≡ none
  unfolding release_script
  release_opens now key token db mine =
      ground (arith, get-del now key key db, text_eq_refl key, text_eq_refl token, mine)

  -- A caller that waits for the lock gets it: if its token can be made, Redis answers, the context is not done and
  -- other clients hold the lock at some turns and not at the next one, the loop ends there with the lock under its
  -- token. If the function that it gives is first called before the lock expires, the lock is the caller's until
  -- then, that call opens it, and no later call changes anything.
  pub acquire_conversation_lock-waits :
      (p n token : Text) (ttl : ℕ) (ts rest : List (Turn values)) (t : Turn values) (db : Db)
      (at after : ℕ) (later : Reply)
      → let key = lock_key p n in
        IsRefused key ts db
        → t.reply ≡ delivered
        → is_some (get t.now key (t.others (data_at ts db))) ≡ false
        → t.now ≤ at
        → alive t.now ttl at ≡ true
        → let (answer, db') =
            acquire_conversation_lock values (some token) p n ttl (ts ++ t ∷ rest) db in
          let opened = release_once values at delivered key token (false, db') in
          (answer ≡ some none)
          × (get at key db' ≡ some token)
          × (get at key opened.1 ≡ none)
          × (release_once values after later key token opened ≡ opened)
  unfolding acquire_conversation_lock acquire_lock release_once unlock
  acquire_conversation_lock-waits p n token ttl ts rest t db at after later refused came free h
        soon =
      let key = lock_key p n in
      let now = t.others (data_at ts db) in
      let got = attempt_free t.now t.reply key token ttl now came free in
      let mine : get at key (set t.now key token ttl now) ≡ some token =
        ground (arith, get-set t.now at key key token ttl now h, text_eq_refl key, soon) in
      let gone = release_opens at key token (set t.now key token ttl now) mine in
      rw
        (
          acquire_conversation_lock,
          waits key token ttl ts (t ∷ rest) db refused,
          acquire_lock,
          got,
          got,
        )
        (refl, mine, gone, refl)
