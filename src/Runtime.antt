-- ===== src/Runtime.antt =====
-- The runtime of engine A (cmd/engine-a/runtime.go): runs held in memory over the log in Postgres.
pub mod State
pub mod Calls
pub mod Synced
pub mod Keeps
pub mod Actions
pub mod Restart
pub mod Poison
pub mod Load
pub mod Loaded
