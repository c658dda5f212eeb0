-- ===== src/Limiter/Scripts.antt =====
-- internal/limiter/limiter.go: the Lua scripts, command for command. The arguments have the names
-- that the Go callers give them.
use dify_game_gateway.Base.Int.{pos, ℤ}
use dify_game_gateway.Limiter.Redis.{Redis, Entry}
use dify_game_gateway.Base.{
  [], ◌∷◌, none, some, Text, List, ℕ, Option, if◌then◌else◌, length, ◌==◌, leb, ◌+◌,
}

module _ (redis : Redis) where
  open redis use {Db, zset, zremrangebyscore, zadd, zrem, pexpire, del}

  -- rateLimitScript: 0 is a refusal.
  unfoldable pub rate_limit_script : Text → ℕ → ℤ → ℕ → Text → ℕ → Db → ℕ × Db
  rate_limit_script key now_ms cutoff limit member window_ms db =
      let purged = zremrangebyscore key cutoff db in
      if leb limit (length (zset key purged))
      then (0, purged)
      else (1, pexpire key window_ms (zadd key now_ms member purged))

  -- acquireInflightScript: no number is the script's -1, else the new count of live leases.
  unfoldable pub acquire_inflight_script : Text → ℕ → ℕ → ℕ → Text → ℕ → Db → Option ℕ × Db
  acquire_inflight_script key now_ms max_inflight expiry token lease_ms db =
      let purged = zremrangebyscore key (pos now_ms) db in
      let count = length (zset key purged) in
      if leb max_inflight count
      then (none, purged)
      else (some (count + 1), pexpire key lease_ms (zadd key expiry token purged))

  -- ZREM of the oldest entry, if there is one.
  unfoldable pub drop_oldest : Text → List Entry → Db → Db
  drop_oldest key [] db = db
  drop_oldest key ((oldest, _) ∷ _) db = zrem key oldest db

  -- releaseInflightScript: the new count of live leases.
  unfoldable pub release_inflight_script : Text → ℕ → Db → ℕ × Db
  release_inflight_script key now_ms db =
      let purged = zremrangebyscore key (pos now_ms) db in
      let dropped = drop_oldest key (zset key purged) purged in
      let count = length (zset key dropped) in
      if count == 0 then (0, del key dropped) else (count, dropped)
