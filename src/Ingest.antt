-- ===== src/Ingest.antt =====
-- The ingestion of events: internal/application/ingestion, internal/infrastructure/pool and
-- internal/infrastructure/executor.
pub mod EventPool
pub mod WorkerPool
pub mod Service
