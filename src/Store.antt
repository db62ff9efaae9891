-- ===== src/Store.antt =====
-- The runs and their actions in Postgres (internal/engine/a/repo, pkg/models/run.go, migrations).
pub mod Tables
pub mod RunRepo
pub mod Numbering
pub mod Dedup
pub mod Races
pub mod Outcomes
