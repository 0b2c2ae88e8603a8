-- ===== src/Ingest/Errors/Recorded.antt =====
-- apps/tmdb-ingest/src/jobs.rs with crates/tmdb-jobs: whether the queue can record what the failure
-- of an upstream request becomes.
use tmdb_mirror.Prelude.{
  ℕ, zero, suc, ◌*◌, ◌≤◌, ◌<◌, ◌≡◌, refl, ◌≢◌, ◌↔◌, ◌⊎◌, inl, inr, true, none, some, ok, err, min,
  codes, arith,
}
use tmdb_mirror.Jobs.Error.{ValidationError, validation}
use tmdb_mirror.Jobs.Model.{Platform, ClaimedJob, validate_failure_code, max_retry_micros}
use tmdb_mirror.Jobs.Repository.{Database, duration_microseconds}
use tmdb_mirror.Jobs.Repository.Lease.{fail}
use tmdb_mirror.Jobs.Repository.Durations.{duration_microseconds_iff}
use tmdb_mirror.Jobs.Worker.{
  JobExecutionError, WorkerConfig, repository, retry, dead_letter_error, record_outcome,
}
use tmdb_mirror.Upstream.Client.{
  TmdbClientError, transport, response_too_large, export_storage, unauthorized_error, rate_limit,
  upstream_server,
}
use tmdb_mirror.Ingest.Build.{invalid, seconds}
use tmdb_mirror.Ingest.Errors.{map_upstream_error, upstream_unavailable}

-- The queue accepts the failure's code, and its delay if it is retried.
abbrev pub IsRecordable : JobExecutionError → Type 0
IsRecordable e =
    (validate_failure_code e.code ≡ ok tt)
    × ((e.terminal ≡ true)
        ⊎ ((us : ℕ) × (duration_microseconds e.retry_delay max_retry_micros ≡ ok us)))

invalid-IsRecordable : IsRecordable invalid
unfolding dead_letter_error validate_failure_code
invalid-IsRecordable = (refl, inl refl)

unauthorized-IsRecordable : IsRecordable (dead_letter_error (codes "upstream_unauthorized"))
unfolding dead_letter_error validate_failure_code
unauthorized-IsRecordable = (refl, inl refl)

unavailable-IsRecordable : IsRecordable upstream_unavailable
unfolding retry validate_failure_code duration_microseconds
unavailable-IsRecordable = (refl, inr (5000000, refl))

storage-IsRecordable : IsRecordable (retry (codes "export_storage") (seconds 30))
unfolding retry validate_failure_code duration_microseconds
storage-IsRecordable = (refl, inr (30000000, refl))

limited-IsRecordable :
    (n : ℕ) → 0 < n → n ≤ 600 → IsRecordable (retry (codes "rate_limited") (seconds n))
unfolding retry validate_failure_code
limited-IsRecordable n h k = (
  refl,
  inr (
    n * 1000000,
    (duration_microseconds_iff _ max_retry_micros (n * 1000000) (omega arith)).1
        (omega arith, omega arith, omega arith),
  ),
)

limited_now-ne-IsRecordable : ¬ IsRecordable (map_upstream_error (rate_limit (some 0)))
unfolding map_upstream_error retry duration_microseconds
limited_now-ne-IsRecordable (code, inl h) = cc
limited_now-ne-IsRecordable (code, inr (us, h)) = cc

-- The equivalence for an error that is recordable and is no rate limit without a wait.
recorded :
    (e : TmdbClientError)
    → IsRecordable (map_upstream_error e)
    → e ≢ rate_limit (some 0)
    → IsRecordable (map_upstream_error e) ↔ (e ≢ rate_limit (some 0))
recorded e h k = (λ r. k, λ n. h)

map_upstream_error-IsRecordable-iff :
    (e : TmdbClientError) → IsRecordable (map_upstream_error e) ↔ (e ≢ rate_limit (some 0))
unfolding map_upstream_error
map_upstream_error-IsRecordable-iff (rate_limit (some zero)) =
    (λ h. absurd (limited_now-ne-IsRecordable h), λ h. absurd (h refl))
map_upstream_error-IsRecordable-iff (rate_limit none) =
    recorded _ (limited-IsRecordable 1 (omega arith) (omega arith)) (λ q. cc)
map_upstream_error-IsRecordable-iff (rate_limit (some (suc n))) =
    recorded _ (limited-IsRecordable (min (suc n) 600) (omega arith) (omega arith)) (λ q. cc)
map_upstream_error-IsRecordable-iff transport = recorded _ unavailable-IsRecordable (λ q. cc)
map_upstream_error-IsRecordable-iff response_too_large =
    recorded _ unavailable-IsRecordable (λ q. cc)
map_upstream_error-IsRecordable-iff (upstream_server status) =
    recorded _ unavailable-IsRecordable (λ q. cc)
map_upstream_error-IsRecordable-iff unauthorized_error =
    recorded _ unauthorized-IsRecordable (λ q. cc)
map_upstream_error-IsRecordable-iff export_storage = recorded _ storage-IsRecordable (λ q. cc)
map_upstream_error-IsRecordable-iff _ = recorded _ invalid-IsRecordable (λ q. cc)

module _ (p : Platform) (db : Database p.Value p.DateTime) (config : WorkerConfig) where
  -- The queue can record what an upstream failure becomes, by its code and its delay, exactly if the
  -- failure is not a rate limit whose answer asks for no wait. For that one the worker's outcome is
  -- the error of an invalid duration, and the database is not asked: the job keeps its lease.
  pub map_upstream_error-IsRecordable :
      (e : TmdbClientError) (job : ClaimedJob p.Value p.DateTime) (s : db.State)
      → (IsRecordable (map_upstream_error e) ↔ (e ≢ rate_limit (some 0)))
        × (record_outcome p db config job (err (map_upstream_error (rate_limit (some 0)))) s
            ≡ (err (repository (validation ValidationError.duration)), s))
  unfolding record_outcome map_upstream_error retry fail validate_failure_code duration_microseconds
  map_upstream_error-IsRecordable e job s = (map_upstream_error-IsRecordable-iff e, refl)
