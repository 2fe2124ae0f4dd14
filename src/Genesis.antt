-- ===== src/Genesis.antt =====
-- The genesis files (src/etb/genesis).
pub mod Execution
pub mod Files
pub mod Consensus
