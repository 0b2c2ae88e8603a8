-- ===== src/Images.antt =====
-- The media worker, apps/tmdb-images/src.
pub mod Header
pub mod Payload
pub mod Download
