-- ===== src/Sim.antt =====
-- The deterministic simulator of engine A (internal/engine/a/service).
pub mod Types
pub mod Engine
pub mod Calls
pub mod Effects
pub mod Win
pub mod Ticks
pub mod Replay
pub mod Exact
pub mod Runs
