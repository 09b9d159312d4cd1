-- ===== src/Storage.antt =====
-- The storage engine, internal/infrastructure/storage.
pub mod Wal
pub mod Writer
pub mod Index
pub mod Kv
pub mod Events
pub mod Tests
