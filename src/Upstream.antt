-- ===== src/Upstream.antt =====
-- The TMDB client, crates/tmdb-upstream/src.
pub mod Policy
pub mod Client
pub mod Export
