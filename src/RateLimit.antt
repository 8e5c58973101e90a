-- ===== src/RateLimit.antt =====
-- The rate limiter of src/worker.c: the table of entries, the admission check of a new connection,
-- the release of a connection and the periodic clean-up. The mutex is not modelled: each function
-- holds it from its first access to its last, so a call is one step.
pub mod Entries
pub mod Bounds
pub mod Bans
pub mod Window
mod Tests
