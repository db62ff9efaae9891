-- ===== src/Publishing.antt =====
-- Publishing a version of a room (internal/platform/publish/service.go).
pub mod Service
pub mod Repeat
pub mod Versions
