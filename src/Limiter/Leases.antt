-- ===== src/Limiter/Leases.antt =====
-- internal/limiter/limiter.go: the in-flight leases under the acquire and the release script.
use dify_game_gateway.Limiter.Entries.{
  length-insert_entry, without_of_Absent, length-without_first, length-without, length-above,
}
use dify_game_gateway.Limiter.Scripts.{
  acquire_inflight_script, release_inflight_script, drop_oldest,
}
use dify_game_gateway.Limiter.Redis.{Redis, Absent, Entry, above, without, Distinct}
use dify_game_gateway.Base.{
  [], ◌∷◌, refl, none, some, Text, ℕ, length, List, ◌≡◌, ◌-◌, ◌≤◌, ◌<◌, ◌+◌, arith, ap, subst, ◌∙◌,
}
use dify_game_gateway.Base.Int.{pos}

module _ (redis : Redis) (key : Text) where
  open redis use {
    Db, zset, zremrangebyscore, zadd, zrem, pexpire, del, zset-Distinct, zset-zremrangebyscore,
    zset-zadd, zset-zrem, zset-pexpire, zset-del,
  }

  -- The leases that have not expired at a time.
  abbrev pub live : ℕ → Db → List Entry
  live now_ms db = above (pos now_ms) (zset key db)

  -- What an acquisition does, on both of its answers: it is refused exactly when the live leases have
  -- reached the limit, and then only expired leases are gone; if not, one lease more is held, and its
  -- answer is how many there are.
  pub acquire_inflight_lem :
      (now_ms max_inflight expiry : ℕ) (token : Text) (lease_ms : ℕ) (db : Db)
      → Absent token (live now_ms db)
      → let (answer, db') =
          acquire_inflight_script redis key now_ms max_inflight expiry token lease_ms db in
        let held = length (live now_ms db) in
        (max_inflight ≤ held → (answer ≡ none) × (zset key db' ≡ live now_ms db))
        × (held < max_inflight → (answer ≡ some (held + 1)) × (length (zset key db') ≡ held + 1))
  unfolding acquire_inflight_script
  acquire_inflight_lem now_ms max_inflight expiry token lease_ms db fresh =
      let purged = zremrangebyscore key (pos now_ms) db in
      let added = zadd key expiry token purged in
      ground (
        arith,
        zset-zremrangebyscore key (pos now_ms) db,
        zset-pexpire key key lease_ms added,
        zset-zadd key expiry token purged,
        length-insert_entry token expiry (live now_ms db),
        without_of_Absent token (live now_ms db),
      )

  -- A limit that holds is kept by an acquisition, whatever its token and its answer.
  pub acquire_inflight_bound :
      (now_ms max_inflight expiry : ℕ) (token : Text) (lease_ms : ℕ) (db : Db)
      → length (zset key db) ≤ max_inflight
      → length (
          zset key
            (acquire_inflight_script redis key now_ms max_inflight expiry token lease_ms db).1)
        ≤ max_inflight
  unfolding acquire_inflight_script
  acquire_inflight_bound now_ms max_inflight expiry token lease_ms db h =
      let purged = zremrangebyscore key (pos now_ms) db in
      let added = zadd key expiry token purged in
      ground (
        arith,
        zset-zremrangebyscore key (pos now_ms) db,
        zset-pexpire key key lease_ms added,
        zset-zadd key expiry token purged,
        length-insert_entry token expiry (without token (live now_ms db)),
        length-without token (live now_ms db),
        length-above (pos now_ms) (zset key db),
      )

  length-drop_oldest :
      (db : Db) (es : List Entry)
      → zset key db ≡ es
      → length (zset key (drop_oldest redis key es db)) ≡ length es - 1
  unfolding drop_oldest
  length-drop_oldest db [] e = ap length e
  length-drop_oldest db ((m, s) ∷ es) e =
      let one_less = length-without_first m s es (subst Distinct e (zset-Distinct key db)) in
      ap length (zset-zrem key m db ∙ ap (without m) e) ∙ omega (arith, one_less)

  -- A release gives back one live lease, if there is one, and answers how many are left.
  pub release_inflight_lem :
      (now_ms : ℕ) (db : Db)
      → let (answer, db') = release_inflight_script redis key now_ms db in
        (answer ≡ length (live now_ms db) - 1) × (length (zset key db') ≡ answer)
  unfolding release_inflight_script
  release_inflight_lem now_ms db =
      let purged = zremrangebyscore key (pos now_ms) db in
      let dropped = drop_oldest redis key (zset key purged) purged in
      ground (
        arith,
        zset-zremrangebyscore key (pos now_ms) db,
        length-drop_oldest purged (zset key purged) refl,
        zset-del key dropped,
      )
