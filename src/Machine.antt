-- ===== src/Machine.antt =====
-- The state machines that consume committed entries, internal/infrastructure/raft.
pub mod Command
pub mod Waiters
pub mod Kv
pub mod Mvcc
