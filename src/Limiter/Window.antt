-- ===== src/Limiter/Window.antt =====
-- internal/limiter/limiter.go: the sliding window of a player and the history of its requests.
use dify_game_gateway.Limiter.Entries.{above-above, without_of_Absent, length-above-insert_entry}
use dify_game_gateway.Limiter.Scripts.{rate_limit_script}
use dify_game_gateway.Limiter.Redis.{Redis, Absent, Entry, above, insert_entry, without}
use dify_game_gateway.Base.{
  [], ◌∷◌, true, false, refl, ℕ, Text, List, ◌≤◌, Bool, length, not, ◌≡◌, ltb, ◌==◌, ap,
  if◌then◌else◌, arith, ◌∙◌, Bool-cases, inl, subst, inr,
}
use dify_game_gateway.Base.Int.{sub_ℕ, ◌≤ℤ◌}

-- A request: its time in milliseconds, and the member that stands for it.
abbrev pub Hit : Type 0
Hit = ℕ × Text

-- The reference: a request passes if fewer than `limit` of those let through lie in its window.
abbrev pub decisions : ℕ → ℕ → List Entry → List Hit → List Bool
decisions limit window history [] = []
decisions limit window history ((now, member) ∷ hits) =
    let passed = ltb (length (above (sub_ℕ now window) history)) limit in
    passed ∷ decisions limit window (if passed then (member, now) ∷ history else history) hits

module _ (redis : Redis) (key : Text) (limit window : ℕ) where
  open redis use {Db, zset, zremrangebyscore, zadd, zset-zremrangebyscore, zset-zadd, zset-pexpire}

  abbrev pub hit_script : Hit → Db → ℕ × Db
  hit_script (now, member) db =
      rate_limit_script redis key now (sub_ℕ now window) limit member window db

  -- The answers of the script to a row of requests.
  abbrev pub answers : Db → List Hit → List Bool
  answers db [] = []
  answers db (hit ∷ hits) =
      let (answer, db') = hit_script hit db in not (answer == 0) ∷ answers db' hits

  -- Each request has a member that no entry of its window has.
  abbrev pub IsFresh : Db → List Hit → Type 0
  IsFresh db [] = Unit
  IsFresh db ((now, member) ∷ hits) =
      Absent member (above (sub_ℕ now window) (zset key db))
      × IsFresh (hit_script (now, member) db).1 hits

  -- The clock does not go back.
  abbrev pub IsOrdered : ℕ → List Hit → Type 0
  IsOrdered last [] = Unit
  IsOrdered last ((now, member) ∷ hits) = (last ≤ now) × IsOrdered now hits

  -- In every window that is still to come the set has as many entries as the history.
  abbrev Tracks : ℕ → List Entry → Db → Type 0
  Tracks last history db =
      (now : ℕ)
      → last ≤ now
      → length (above (sub_ℕ now window) (zset key db)) ≡ length (above (sub_ℕ now window) history)

  cutoff_mono : (a b : ℕ) → a ≤ b → sub_ℕ a window ≤ℤ sub_ℕ b window
  cutoff_mono a b h = ground arith

  refused-Tracks :
      (last now later : ℕ) (history : List Entry) (db : Db)
      → Tracks last history db
      → last ≤ now
      → now ≤ later
      → length (above (sub_ℕ later window) (zset key (zremrangebyscore key (sub_ℕ now window) db)))
        ≡ length (above (sub_ℕ later window) history)
  refused-Tracks last now later history db t h k =
      ap (λ es. length (above (sub_ℕ later window) es)) (zset-zremrangebyscore key _ db)
      ∙ ap length (above-above _ _ (zset key db) (cutoff_mono now later k))
      ∙ t later (omega arith)

  passed-Tracks :
      (last now later : ℕ) (member : Text) (history : List Entry) (db : Db)
      → Tracks last history db
      → last ≤ now
      → now ≤ later
      → Absent member (above (sub_ℕ now window) (zset key db))
      → let purged = zremrangebyscore key (sub_ℕ now window) db in
        length (above (sub_ℕ later window) (zset key (zadd key now member purged)))
        ≡ length (above (sub_ℕ later window) ((member, now) ∷ history))
  passed-Tracks last now later member history db t h k fresh =
      let purged = zremrangebyscore key (sub_ℕ now window) db in
      let kept = above (sub_ℕ now window) (zset key db) in
      let bound = sub_ℕ later window in
      let set : zset key (zadd key now member purged) ≡ insert_entry member now kept =
        zset-zadd key now member purged
        ∙ ap (λ es. insert_entry member now (without member es)) (zset-zremrangebyscore key _ db)
        ∙ ap (insert_entry member now) (without_of_Absent member kept fresh) in
      let same : length (above bound kept) ≡ length (above bound history) =
        ap length (above-above _ _ (zset key db) (cutoff_mono now later k))
        ∙ t later (omega arith) in
      ap (λ es. length (above bound es)) set
      ∙ length-above-insert_entry bound member now kept
      ∙ ground (arith, same)

  hit_script_lem :
      (now : ℕ) (member : Text) (db : Db) (count : ℕ)
      → length (zset key (zremrangebyscore key (sub_ℕ now window) db)) ≡ count
      → let purged = zremrangebyscore key (sub_ℕ now window) db in
        (ltb count limit ≡ true
          → hit_script (now, member) db
            ≡ (1, redis.pexpire key window (zadd key now member purged)))
        × (ltb count limit ≡ false → hit_script (now, member) db ≡ (0, purged))
  unfolding rate_limit_script
  hit_script_lem now member db count e = ground arith

  -- The sliding window is exact: for requests whose clock does not go back and whose members are
  -- fresh, the script lets a request pass exactly when fewer than `limit` of the requests let through
  -- before lie within the window that ends with it.
  pub answers-eq-decisions :
      (last : ℕ) (history : List Entry) (db : Db) (hits : List Hit)
      → Tracks last history db
      → IsOrdered last hits
      → IsFresh db hits
      → answers db hits ≡ decisions limit window history hits
  answers-eq-decisions last history db [] t o f = refl
  answers-eq-decisions last history db ((now, member) ∷ hits) t (h, o) (fresh, f) =
      let count = length (above (sub_ℕ now window) history) in
      let kept : length (zset key (zremrangebyscore key (sub_ℕ now window) db)) ≡ count =
        ap length (zset-zremrangebyscore key _ db) ∙ t now h in
      let (passes, refuses) = hit_script_lem now member db count kept in
      elim (Bool-cases (ltb count limit)) [
        | inl yes_ ↦
            let e = passes yes_ in
            rw (yes_, e)
              (ap (λ r. true ∷ r)
                (answers-eq-decisions now _ _ hits
                  (λ later k.
                    ap (λ es. length (above (sub_ℕ later window) es))
                      (zset-pexpire key key window _)
                    ∙ passed-Tracks last now later member history db t h k fresh)
                  o (subst (λ (r : ℕ × Db). IsFresh r.1 hits) e f)))
        | inr no_ ↦
            let e = refuses no_ in
            rw (no_, e)
              (ap (λ r. false ∷ r)
                (answers-eq-decisions now history _ hits
                  (λ later k. refused-Tracks last now later history db t h k) o
                  (subst (λ (r : ℕ × Db). IsFresh r.1 hits) e f)))
      ]
