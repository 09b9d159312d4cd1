-- ===== src/Cluster.antt =====
-- The partitioning of the key space, internal/infrastructure/cluster.
pub mod Ring
