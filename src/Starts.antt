-- ===== src/Starts.antt =====
-- Starting a run (internal/engine/a/service/run_service.go).
pub mod Idempotency
pub mod RunService
pub mod Retry
pub mod Failure
