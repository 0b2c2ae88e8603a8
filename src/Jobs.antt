-- ===== src/Jobs.antt =====
-- The durable job queue's client side, crates/tmdb-jobs/src.
pub mod Error
pub mod Model
pub mod Repository
pub mod Worker
