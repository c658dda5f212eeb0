-- ===== src/Store.antt =====
-- internal/store/store.go: the conversation of a player and an NPC in Redis, and the lock of its
-- creation. The commands on plain values are an interface with the laws of their documentation; a key
-- that was set at a time with an expiry has no value from the end of that time on.
pub mod Lock
pub mod Keys
pub mod Waiting
mod Tests
use dify_game_gateway.Base.{
  ℕ, Text, text, text_eq, Bool, true, false, List, [], ◌∷◌, ◌++◌, Option, none, some, is_some,
  if◌then◌else◌, ◌≡◌, ◌==◌, ◌≤◌, ◌||◌, ltb, ◌+◌,
}
use dify_game_gateway.Base.Int.{ℤ, pos, pos_part, leb_ℤ}
use dify_game_gateway.Limiter.Guards.{Reply, delivered, lost_before, lost_after}
use dify_game_gateway.Pipeline.Errors.{Failure, other, Result, ok, err}

-- Whether a key that was set at a time is still there later; an expiry of 0 is none.
abbrev pub alive : (set_at ttl now : ℕ) → Bool
alive set_at ttl now = ttl == 0 || ltb now (set_at + ttl)

-- GET, SET with an expiry, SET NX with an expiry, and DEL, each at a time in the unit of the expiries.
pub record Values : Type 1 where
  pub Db : Type 0
  pub get : (now : ℕ) → Text → Db → Option Text
  pub set : (now : ℕ) (key value : Text) (ttl : ℕ) → Db → Db
  pub set_nx : (now : ℕ) (key value : Text) (ttl : ℕ) → Db → Bool × Db
  pub del : Text → Db → Db
  pub get-set :
      (now later : ℕ) (key other value : Text) (ttl : ℕ) (db : Db)
      → now ≤ later
      → get later other (set now key value ttl db) ≡ (
          if text_eq key other
          then if alive now ttl later then some value else none
          else get later other db)
  pub get-del :
      (now : ℕ) (key other : Text) (db : Db)
      → get now other (del key db) ≡ (if text_eq key other then none else get now other db)
  pub set_nx-set :
      (now : ℕ) (key value : Text) (ttl : ℕ) (db : Db)
      → set_nx now key value ttl db
        ≡ (if is_some (get now key db) then (false, db) else (true, set now key value ttl db))

abbrev pub conversation_key : Text → Text → Text
conversation_key player npc = text "conv:" ++ (player ++ b':' ∷ npc)

abbrev pub lock_key : Text → Text → Text
lock_key player npc = text "lock:conv:" ++ (player ++ b':' ∷ npc)

module _ (values : Values) where
  open values use {Db, get, set, set_nx, del}

  -- A command that changes the data: whether its answer comes, and the data that it leaves.
  unfoldable pub command : Reply → (Db → Db) → Db → Option Failure × Db
  command delivered change db = (none, change db)
  command lost_before change db = (some other, db)
  command lost_after change db = (some other, change db)

  unfoldable pub got : Reply → Option Text → Result Text
  got delivered none = ok []
  got delivered (some value) = ok value
  got _ value = err other

  unfoldable pub get_conversation : ℕ → Reply → Text → Text → Db → Result Text
  unfolding got
  get_conversation now reply player npc db = got reply (get now (conversation_key player npc) db)

  unfoldable pub set_conversation : ℕ → Reply → Text → Text → Text → ℤ → Db → Option Failure × Db
  unfolding command
  set_conversation now reply player npc conversation ttl db =
      if leb_ℤ ttl (pos 0)
      then (some other, db)
      else command reply (set now (conversation_key player npc) conversation (pos_part ttl)) db

  unfoldable pub delete_conversation : Reply → Text → Text → Db → Option Failure × Db
  unfolding command
  delete_conversation reply player npc db = command reply (del (conversation_key player npc)) db

  -- releaseScript, as the releaser runs it: its answer and its error are not used.
  unfoldable pub release_script : ℕ → Text → Text → Db → Db
  release_script now key token db = elim (get now key db) [
    | some held ↦ if text_eq held token then del key db else db
    | none ↦ db
  ]

  unfoldable pub unlock : ℕ → Reply → Text → Text → Db → Db
  unlock now delivered key token db = release_script now key token db
  unlock now lost_before key token db = db
  unlock now lost_after key token db = release_script now key token db

  pub data Attempt : Type 0 where
    acquired : Attempt
    contended : Attempt
    failed : Attempt

  unfoldable pub answer_of : Reply → Bool → Attempt
  answer_of delivered true = acquired
  answer_of delivered false = contended
  answer_of _ answer = failed

  -- One turn of the loop of AcquireConversationLock.
  unfoldable pub attempt : ℕ → Reply → Text → Text → ℕ → Db → Attempt × Db
  unfolding answer_of
  attempt now lost_before key token ttl db = (failed, db)
  attempt now reply key token ttl db =
      let (answer, db') = set_nx now key token ttl db in (answer_of reply answer, db')

  -- When a turn is and what happens until then, how its command goes, and whether the context is done after it.
  pub record Turn : Type 0 where
    pub now : ℕ
    pub others : Db → Db
    pub reply : Reply
    pub context_error : Option Failure

  -- No answer is a loop that still waits.
  unfoldable pub acquire_lock : Text → Text → ℕ → List Turn → Db → Option (Option Failure) × Db
  acquire_lock key token ttl [] db = (none, db)
  acquire_lock key token ttl (t ∷ turns) db =
      let (answer, db') = attempt t.now t.reply key token ttl (t.others db) in
      elim answer [
        | acquired ↦ (some none, db')
        | failed ↦ (some (some other), db')
        | contended ↦ elim t.context_error [
          | some e ↦ (some (some e), db')
          | none ↦ acquire_lock key token ttl turns db'
        ]
      ]

  -- No token is a random source that fails; `some none` gives the caller the function of the releaser.
  unfoldable pub acquire_conversation_lock :
      Option Text → Text → Text → ℕ → List Turn → Db → Option (Option Failure) × Db
  unfolding acquire_lock
  acquire_conversation_lock none player npc ttl turns db = (some (some other), db)
  acquire_conversation_lock (some token) player npc ttl turns db =
      acquire_lock (lock_key player npc) token ttl turns db

  -- One call of the function of the releaser, with what sync.Once keeps: whether it has run.
  unfoldable pub release_once : ℕ → Reply → Text → Text → Bool × Db → Bool × Db
  unfolding unlock
  release_once now reply key token (true, db) = (true, db)
  release_once now reply key token (false, db) = (true, unlock now reply key token db)
