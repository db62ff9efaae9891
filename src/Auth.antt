-- ===== src/Auth.antt =====
-- internal/auth: users and sessions, the service over them, GitHub's OAuth, and the HTTP layer.
pub mod Tables
pub mod GitHub
pub mod Service
pub mod Transport
pub mod Valid
pub mod Steps
pub mod Roles
pub mod Rows
pub mod Login
pub mod Logout
pub mod Profile
pub mod System
