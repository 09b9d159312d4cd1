-- ===== src/Raft.antt =====
-- The consensus layer, internal/infrastructure/raft.
pub mod Types
pub mod Examples
pub mod Config
pub mod Stores
pub mod LogFile
pub mod MetaFile
pub mod SnapshotFile
pub mod Node
pub mod Vote
pub mod Membership
pub mod Append
pub mod Leader
pub mod Election
pub mod ReadIndex
pub mod Apply
pub mod Snapshots
pub mod Registry
pub mod Safety
