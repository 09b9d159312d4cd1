-- ===== src/Replication.antt =====
-- internal/infrastructure/replication: the copy of a log file to another node, byte by byte.
pub mod Link
