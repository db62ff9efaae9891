-- ===== src/Settings.antt =====
-- What the commands read from their environment.
pub mod Env
pub mod Configs
