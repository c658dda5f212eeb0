-- ===== src/Limiter/Refinement.antt =====
-- internal/limiter/limiter.go: the acquire and the release script under rows of calls.
use dify_game_gateway.Limiter.Entries.{length-insert_entry, without_of_Absent}
use dify_game_gateway.Limiter.Scripts.{
  acquire_inflight_script, release_inflight_script, drop_oldest,
}
use dify_game_gateway.Limiter.Redis.{Redis, Absent, Entry, above, without, insert_entry}
use dify_game_gateway.Base.{
  [], ◌∷◌, refl, some, Text, ℕ, Option, length, List, ◌≡◌, ◌-◌, arith, ap, ap₂, subst, ◌∙◌, sym,
  All, ltb, if◌then◌else◌, Bool-cases, ◌==◌, ==_iff, inl, inr,
}
use dify_game_gateway.Base.Int.{pos}
use dify_game_gateway.Limiter.Semaphore.{
  SlotCall, take_slot, give_slot, Apart, IsLasting, IsLasting-insert_entry, IsLasting-without,
  IsWithin, Unused, Unused-insert_entry, Unused-without, above_of_IsLasting, length-without_oldest,
  nil_of_length, semaphore, semaphore_replies, without_oldest,
}

module _ (redis : Redis) (key : Text) (limit lease_ms : ℕ) where
  open redis use {
    Db, zset, zremrangebyscore, zadd, zrem, pexpire, del, zset-Distinct, zset-zremrangebyscore,
    zset-zadd, zset-zrem, zset-pexpire, zset-del,
  }

  -- The script that a call runs, and its answer.
  unfoldable pub slot_script : SlotCall → Db → Option ℕ × Db
  slot_script (take_slot now_ms expiry token) db =
      acquire_inflight_script redis key now_ms limit expiry token lease_ms db
  slot_script (give_slot now_ms) db =
      let (n, db') = release_inflight_script redis key now_ms db in (some n, db')

  unfoldable pub slot_replies : Db → List SlotCall → List (Option ℕ) × Db
  slot_replies db [] = ([], db)
  slot_replies db (c ∷ cs) =
      let (reply, db') = slot_script c db in
      let (replies, last) = slot_replies db' cs in (reply ∷ replies, last)

  take-set :
      (now_ms expiry : ℕ) (token : Text) (db : Db)
      → above (pos now_ms) (zset key db) ≡ zset key db
      → Absent token (zset key db)
      → let (answer, db') = slot_script (take_slot now_ms expiry token) db in
        let n = length (zset key db) in
        (answer ≡ (semaphore limit n (take_slot now_ms expiry token)).0)
        × (zset key db'
            ≡ (if ltb n limit then insert_entry token expiry (zset key db) else zset key db))
  unfolding slot_script acquire_inflight_script
  take-set now_ms expiry token db kept fresh =
      let purged = zremrangebyscore key (pos now_ms) db in
      let same : zset key purged ≡ zset key db = zset-zremrangebyscore key (pos now_ms) db ∙ kept in
      let added = zadd key expiry token purged in
      ground (
        arith,
        ap length same,
        zset-pexpire key key lease_ms added
            ∙ zset-zadd key expiry token purged
            ∙ ap (λ es. insert_entry token expiry (without token es)) same
            ∙ ap (insert_entry token expiry) (without_of_Absent token (zset key db) fresh),
      )

  drop_oldest-set :
      (es : List Entry) (db : Db)
      → zset key db ≡ es
      → zset key (drop_oldest redis key es db) ≡ without_oldest es
  unfolding drop_oldest
  drop_oldest-set [] db e = e
  drop_oldest-set ((m, s) ∷ es) db e = zset-zrem key m db ∙ ap (without m) e

  give-set :
      (now_ms : ℕ) (db : Db)
      → above (pos now_ms) (zset key db) ≡ zset key db
      → let (answer, db') = slot_script (give_slot now_ms) db in
        (answer ≡ some (length (zset key db) - 1)) × (zset key db' ≡ without_oldest (zset key db))
  unfolding slot_script release_inflight_script
  give-set now_ms db kept =
      let purged = zremrangebyscore key (pos now_ms) db in
      let same : zset key purged ≡ zset key db = zset-zremrangebyscore key (pos now_ms) db ∙ kept in
      let dropped = drop_oldest redis key (zset key purged) purged in
      let left : zset key dropped ≡ without_oldest (zset key db) =
        drop_oldest-set (zset key purged) purged refl ∙ ap without_oldest same in
      let fewer : length (zset key dropped) ≡ length (zset key db) - 1 =
        ap length left ∙ length-without_oldest (zset key db) (zset-Distinct key db) in
      elim (Bool-cases (length (zset key dropped) == 0)) [
        | inl none_left ↦
            let zero_left = (==_iff (length (zset key dropped)) 0).0 none_left in
            let empty = sym left ∙ nil_of_length (zset key dropped) zero_left in
            rw none_left (ap some (sym zero_left ∙ fewer), zset-del key dropped ∙ sym empty)
        | inr some_left ↦ rw some_left (ap some fewer, left)
      ]

  -- A state in which the calls can begin.
  abbrev Begins : ℕ → List SlotCall → List Entry → Type 0
  Begins horizon cs es = IsLasting horizon es × Unused es cs × Apart cs × All (IsWithin horizon) cs

  without_oldest-Begins :
      (horizon : ℕ) (cs : List SlotCall) (es : List Entry)
      → Begins horizon cs es
      → Begins horizon cs (without_oldest es)
  without_oldest-Begins horizon cs [] b = b
  without_oldest-Begins horizon cs ((m, s) ∷ es) (lasting, unused, apart, within) = (
    IsLasting-without horizon m ((m, s) ∷ es) lasting,
    Unused-without m ((m, s) ∷ es) cs unused,
    apart,
    within,
  )

  -- One call answers and counts as the semaphore does, and the next calls can begin.
  abbrev Agrees : ℕ → SlotCall → List SlotCall → Db → Type 0
  Agrees horizon c cs db =
      let n = length (zset key db) in
      ((slot_script c db).0 ≡ (semaphore limit n c).0)
      × (length (zset key (slot_script c db).1) ≡ (semaphore limit n c).1)
      × Begins horizon cs (zset key (slot_script c db).1)

  slot_script-Agrees :
      (horizon : ℕ) (c : SlotCall) (cs : List SlotCall) (db : Db)
      → Begins horizon (c ∷ cs) (zset key db)
      → Agrees horizon c cs db
  slot_script-Agrees horizon (take_slot now_ms expiry token) cs db
        (lasting, (fresh, unused), (differs, apart), ((soon, late), within)) =
      let es = zset key db in
      let kept = above_of_IsLasting horizon now_ms es soon lasting in
      let (answer, set) = take-set now_ms expiry token db kept fresh in
      elim (Bool-cases (ltb (length es) limit)) [
        | inl room ↦
            let set' : zset key (slot_script (take_slot now_ms expiry token) db).1
                ≡ insert_entry token expiry es =
              set ∙ ap (λ b. if b then insert_entry token expiry es else es) room in
            rw (room) (
              answer ∙ rw room refl,
              ap length set' ∙ length-insert_entry token expiry es ∙ omega arith,
              subst (Begins horizon cs) (sym set') (
                IsLasting-insert_entry horizon token expiry es late lasting,
                Unused-insert_entry token expiry es cs differs unused,
                apart,
                within,
              ),
            )
        | inr full ↦
            let set' = set ∙ ap (λ b. if b then insert_entry token expiry es else es) full in
            rw full (
              answer ∙ rw full refl,
              ap length set',
              subst (Begins horizon cs) (sym set') (lasting, unused, apart, within),
            )
      ]
  slot_script-Agrees horizon (give_slot now_ms) cs db (lasting, unused, apart, (soon, within)) =
      let es = zset key db in
      let (answer, set) = give-set now_ms db (above_of_IsLasting horizon now_ms es soon lasting) in
      (
        answer,
        ap length set ∙ length-without_oldest es (zset-Distinct key db),
        subst (Begins horizon cs) (sym set)
            (without_oldest-Begins horizon cs es (lasting, unused, apart, within)),
      )

  -- The scripts are a counting semaphore: as long as no lease runs out, and with a token of its own for
  -- each acquisition, any row of acquisitions and releases is answered as a counter with the limit
  -- answers it, and at its end as many leases are held as the counter counts.
  pub slot_replies-semaphore :
      (horizon : ℕ) (cs : List SlotCall) (db : Db)
      → IsLasting horizon (zset key db)
      → Unused (zset key db) cs
      → Apart cs
      → All (IsWithin horizon) cs
      → let (replies, last) = slot_replies db cs in
        let (expected, count) = semaphore_replies limit (length (zset key db)) cs in
        (replies ≡ expected) × (length (zset key last) ≡ count)
  unfolding slot_replies
  slot_replies-semaphore horizon [] db lasting unused apart within = (refl, refl)
  slot_replies-semaphore horizon (c ∷ cs) db lasting unused apart within =
      let (answer, count, (lasting', unused', apart', within')) =
        slot_script-Agrees horizon c cs db (lasting, unused, apart, within) in
      let db' = (slot_script c db).1 in
      let (rest, last) = slot_replies-semaphore horizon cs db' lasting' unused' apart' within' in
      (
        ap₂ (λ r rs. r ∷ rs) answer (rest ∙ ap (λ n. (semaphore_replies limit n cs).0) count),
        last ∙ ap (λ n. (semaphore_replies limit n cs).1) count,
      )
