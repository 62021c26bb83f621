-- ===== src/Ingestion.antt =====
-- backend/src/modules/Ingestion
pub mod Ingest
pub mod Routing
pub mod OneOpen
pub mod Paths
