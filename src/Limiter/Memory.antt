-- ===== src/Limiter/Memory.antt =====
-- A Redis held in memory, for the tests of the limiter's modules: it shows that the laws that the
-- scripts rely on can hold together.
use dify_game_gateway.Base.{
  ℕ, Text, List, [], ◌∷◌, Option, none, some, Bool, true, false, text_eq, if◌then◌else◌, decimal,
  ◌≡◌, refl, arith, ◌≢◌, text_eq_iff, text_eq_refl,
}
use dify_game_gateway.Base.Int.{ℤ, pos, pos_part, atoi, ◌+ℤ◌}
use dify_game_gateway.Limiter.Entries.{Absent-above, Absent-without, Absent-insert_entry}
use dify_game_gateway.Limiter.Redis.{Entry, above, without, insert_entry, Absent, Distinct, Redis}

pub record Memory : Type 0 where
  pub sets : Text → List Entry
  pub distinct : (key : Text) → Distinct (sets key)
  pub values : Text → Option Text

pub Distinct-above : (bound : ℤ) (es : List Entry) → Distinct es → Distinct (above bound es)
Distinct-above bound [] h = tt
Distinct-above bound ((m, s) ∷ es) h =
    ground (arith, Distinct-above bound es, Absent-above bound m es)

pub Absent-without_self : (gone : Text) (es : List Entry) → Absent gone (without gone es)
Absent-without_self gone [] = tt
Absent-without_self gone ((m, s) ∷ es) = ground (arith, Absent-without_self gone es)

pub Distinct-without : (gone : Text) (es : List Entry) → Distinct es → Distinct (without gone es)
Distinct-without gone [] h = tt
Distinct-without gone ((m, s) ∷ es) h =
    ground (arith, Distinct-without gone es, Absent-without gone m es)

pub Distinct-insert_entry :
    (new : Text) (score : ℕ) (es : List Entry)
    → Absent new es
    → Distinct es
    → Distinct (insert_entry new score es)
Distinct-insert_entry new score [] h k = (tt, tt)
Distinct-insert_entry new score ((m, s) ∷ es) h k = ground (
  arith,
  Distinct-insert_entry new score es,
  Absent-insert_entry new score m es,
  text_eq_iff new m,
  text_eq_iff m new,
)

pub choose : Bool → List Entry → List Entry → List Entry
choose true new old = new
choose false new old = old

pub choose-Distinct :
    (b : Bool) (new old : List Entry) → Distinct new → Distinct old → Distinct (choose b new old)
unfolding choose
choose-Distinct true new old h k = h
choose-Distinct false new old h k = k

-- One set changed.
unfoldable pub with_set : Memory → (key : Text) → (es : List Entry) → Distinct es → Memory
unfolding choose
with_set db key es h = record db {
  sets = λ k. choose (text_eq key k) es (db.sets k);
  distinct = λ k. choose-Distinct (text_eq key k) es (db.sets k) h (db.distinct k);
}

pub with_set-same :
    (db : Memory) (key : Text) (es : List Entry) (h : Distinct es)
    → (with_set db key es h).sets key ≡ es
unfolding with_set choose
with_set-same db key es h = rw (text_eq_refl key) refl

pub with_set-other :
    (db : Memory) (key other : Text) (es : List Entry) (h : Distinct es)
    → key ≢ other
    → (with_set db key es h).sets other ≡ db.sets other
unfolding with_set choose
with_set-other db key other es h ne = ground (arith, text_eq_iff key other)

abbrev pub number_of : Option Text → Option ℤ
number_of none = some (pos 0)
number_of (some s) = atoi s

-- INCRBY, for the values of the tests: numbers that are not negative.
abbrev pub added : ℤ → Option ℤ → Option Text
added n none = none
added n (some value) = some (decimal (pos_part (value +ℤ n)))

abbrev pub memory : Redis
memory = record {
  Db = Memory;
  zset = λ key db. db.sets key;
  zremrangebyscore = λ key bound db.
      with_set db key (above bound (db.sets key)) (Distinct-above bound _ (db.distinct key));
  zadd = λ key score member db.
      with_set db key (insert_entry member score (without member (db.sets key))) (
        Distinct-insert_entry member score _ (Absent-without_self member (db.sets key))
          (Distinct-without member _ (db.distinct key)));
  zrem = λ key member db.
      with_set db key (without member (db.sets key)) (Distinct-without member _ (db.distinct key));
  pexpire = λ key ttl db. db;
  del = λ key db. with_set db key [] tt;
  get = λ key db. db.values key;
  incrby = λ key n db. record db {
    values = λ k. if text_eq key k then added n (number_of (db.values k)) else db.values k;
  };
  zset-Distinct = λ key db. db.distinct key;
  zset-zremrangebyscore = λ key bound db. with_set-same db key _ _;
  zset-zadd = λ key score member db. with_set-same db key _ _;
  zset-zrem = λ key member db. with_set-same db key _ _;
  zset-pexpire = λ key other ttl db. refl;
  zset-del = λ key db. with_set-same db key [] tt;
  zset-incrby = λ key other n db. refl;
  zset-zremrangebyscore_ne = λ key other bound db ne. with_set-other db key other _ _ ne;
  zset-zadd_ne = λ key other score member db ne. with_set-other db key other _ _ ne;
}

abbrev pub empty_memory : Memory
empty_memory = record { sets = λ key. []; distinct = λ key. tt; values = λ key. none }
