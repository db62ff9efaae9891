-- ===== src/Ws.antt =====
-- The websocket protocol of engine A (internal/ws, internal/engine/a/transport/ws_handler.go).
pub mod Messages
pub mod ResumeBuffer
pub mod Protocol
pub mod Heartbeat
pub mod Connection
pub mod InOrder
pub mod Session
pub mod Handshake
pub mod Order
pub mod Opening
pub mod Active
pub mod Resume
pub mod Once
pub mod Interleaving
pub mod Watching
