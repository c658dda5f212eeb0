-- ===== src/Pipeline.antt =====
-- internal/pipeline/handler.go: the path of a chat request and of a reset. `Effects` has what a
-- handler does to the world and what the world answers, `Errors` the errors and the codes that a
-- client sees, `Chat` and `Reset` the handlers; the other children prove.
pub mod Errors
pub mod Effects
pub mod Resolve
pub mod Stream
pub mod Chat
pub mod Reset
pub mod Tally
pub mod Slots
pub mod Locking
pub mod Order
pub mod Ends
mod Tests
