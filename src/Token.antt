-- ===== src/Token.antt =====
-- Run tokens (internal/token).
pub mod Claims
pub mod Tokens
pub mod RoundTrip
