-- ===== src/Tests.antt =====
-- Runs of the models on concrete inputs, and the theorems at inputs that meet their hypotheses.
mod Documents
mod Fixtures
mod Jobs
mod Images
mod Upstream
mod Ingest
mod Linked
mod Windows
mod Schedule
mod Media
mod Payload
mod Download
