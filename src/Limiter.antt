-- ===== src/Limiter.antt =====
-- internal/limiter/limiter.go: the guards of a request that rest on Redis. `Redis` states what the
-- scripts rely on, `Scripts` translates them, `Guards` the methods of RedisLimiter; the other
-- children prove.
pub mod Redis
pub mod Scripts
pub mod Guards
pub mod Entries
pub mod Leases
pub mod Slots
pub mod Admission
pub mod Window
pub mod Tokens
pub mod Semaphore
pub mod Refinement
pub mod Creation
pub mod Setup
pub mod Memory
mod Tests
