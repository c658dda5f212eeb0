-- ===== src/Limiter/Redis.antt =====
-- What the limiter's scripts rely on in Redis, as its documentation states it: sorted sets, plain
-- values, and expiry. Redis runs a script as one step. Scores are Unix times in milliseconds.
use dify_game_gateway.Base.{
  [], ◌∷◌, Text, List, ℕ, if◌then◌else◌, Option, text_eq, ltb, ◌==◌, ◌||◌, ◌&&◌, Bool, true, ◌≡◌,
  ◌≢◌, false,
}
use dify_game_gateway.Base.Int.{pos, ℤ, leb_ℤ}

-- A member of a sorted set and its score.
abbrev pub Entry : Type 0
Entry = Text × ℕ

-- The entries with a score above a bound: what ZREMRANGEBYSCORE key 0 bound leaves.
abbrev pub above : ℤ → List Entry → List Entry
above bound [] = []
above bound ((m, score) ∷ es) =
    let rest = above bound es in if leb_ℤ (pos score) bound then rest else (m, score) ∷ rest

abbrev pub without : Text → List Entry → List Entry
without member [] = []
without member ((m, score) ∷ es) =
    let rest = without member es in if text_eq m member then rest else (m, score) ∷ rest

-- The order of two members with one score: by their bytes, which is by their runes.
pub precedes : Text → Text → Bool
precedes [] t = true
precedes (c ∷ s) [] = false
precedes (c ∷ s) (d ∷ t) = ltb c d || c == d && precedes s t

-- A new entry goes behind those with a smaller score, and those with the same and a member that comes before.
abbrev pub insert_entry : Text → ℕ → List Entry → List Entry
insert_entry member score [] = (member, score) ∷ []
insert_entry member score ((m, s) ∷ es) =
    let rest = insert_entry member score es in
    if ltb s score || s == score && precedes m member
    then (m, s) ∷ rest
    else (member, score) ∷ (m, s) ∷ es

-- No entry has this member; and no two entries have the same.
abbrev pub Absent : Text → List Entry → Type 0
Absent member [] = Unit
Absent member ((m, score) ∷ es) = (text_eq m member ≡ false) × Absent member es

abbrev pub Distinct : List Entry → Type 0
Distinct [] = Unit
Distinct ((m, score) ∷ es) = Absent m es × Distinct es

pub record Redis : Type 1 where
  pub Db : Type 0
  pub zset : Text → Db → List Entry  -- ZRANGE key 0 -1 WITHSCORES; its length is ZCARD
  pub zremrangebyscore : Text → ℤ → Db → Db  -- from 0
  pub zadd : Text → ℕ → Text → Db → Db
  pub zrem : Text → Text → Db → Db
  pub pexpire : Text → ℕ → Db → Db
  pub del : Text → Db → Db
  pub get : Text → Db → Option Text
  pub incrby : Text → ℤ → Db → Db
  pub zset-Distinct : (key : Text) (db : Db) → Distinct (zset key db)
  pub zset-zremrangebyscore :
      (key : Text) (bound : ℤ) (db : Db)
      → zset key (zremrangebyscore key bound db) ≡ above bound (zset key db)
  pub zset-zadd :
      (key : Text) (score : ℕ) (member : Text) (db : Db)
      → zset key (zadd key score member db)
        ≡ insert_entry member score (without member (zset key db))
  pub zset-zrem :
      (key member : Text) (db : Db) → zset key (zrem key member db) ≡ without member (zset key db)
  -- What the end of an expiry takes from a set, the purge of the next script takes from it anyway.
  pub zset-pexpire :
      (key other : Text) (ttl : ℕ) (db : Db) → zset other (pexpire key ttl db) ≡ zset other db
  pub zset-del : (key : Text) (db : Db) → zset key (del key db) ≡ []
  pub zset-incrby :
      (key other : Text) (n : ℤ) (db : Db) → zset other (incrby key n db) ≡ zset other db
  -- A command leaves the other keys alone.
  pub zset-zremrangebyscore_ne :
      (key other : Text) (bound : ℤ) (db : Db)
      → key ≢ other
      → zset other (zremrangebyscore key bound db) ≡ zset other db
  pub zset-zadd_ne :
      (key other : Text) (score : ℕ) (member : Text) (db : Db)
      → key ≢ other
      → zset other (zadd key score member db) ≡ zset other db
