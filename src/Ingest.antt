-- ===== src/Ingest.antt =====
-- The metadata worker, apps/tmdb-ingest/src.
pub mod Json
pub mod Payload
pub mod Build
pub mod Submit
pub mod Scan
pub mod Export
pub mod Documents
pub mod Windows
pub mod Schedule
pub mod Errors
