-- ===== src/Wire.antt =====
-- The agent's contract with the broker's other side, internal/wire.
pub mod Messages
pub mod Topics
pub mod Counters
pub mod Tx
pub mod ReadTx
