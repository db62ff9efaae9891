-- ===== src/Tests.antt =====
-- Concrete runs of the models and of the theorems about them.
mod Accounts
mod Bff
mod Publication
mod Rooms
mod Rows
mod Runs
mod Simulator
mod Sockets
mod Starting
mod Tokens
mod Tooling
mod Packing
