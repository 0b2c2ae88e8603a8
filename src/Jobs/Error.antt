-- ===== src/Jobs/Error.antt =====
-- crates/tmdb-jobs/src/error.rs.

-- Validation failures at the durable-job boundary.
pub data ValidationError : Type 0 where
  job_type payload_version json_object dedup_key worker_id priority batch_size : ValidationError
  max_attempts available_at message failure_code duration : ValidationError

-- Sanitized repository failures.
pub data JobError : Type 0 where
  validation : ValidationError → JobError
  not_found lease_lost rejected capacity database : JobError
