-- ===== src/Core.antt =====
-- The agent's core, internal/core.
pub mod WrittenIds
pub mod Pipeline
pub mod Frames
pub mod Status
pub mod Tx
pub mod Life
pub mod New
pub mod Routing
pub mod Shutdown
pub mod Keepalive
