-- ===== src/Jobs/Repository/Lease.antt =====
-- crates/tmdb-jobs/src/repository.rs: claiming, renewing and finishing a leased job.
use tmdb_mirror.Prelude.{
  ℕ, Bool, List, [], ◌∷◌, Option, none, some, if◌then◌else◌, Text, codes, text_eq, Result, ok, err,
  ◌>>=◌ as and_then,
}
use tmdb_mirror.Jobs.Error.{JobError, database, not_found}
use tmdb_mirror.Jobs.Model.{
  Platform, JobId, WorkerId, ClaimedJob, Job, FailureDisposition, retry_scheduled, dead_lettered,
  cancelled, validate_json_object, validate_failure_code, validate_message, max_lease_micros,
  max_retry_micros, max_cancel_message_chars,
}
use tmdb_mirror.Jobs.Repository.{
  Database, FailureRow, M, and_then_in as bind, query, lift, valid, duration_microseconds,
  job_row_into_model,
}

-- `ok_or(JobError::NotFound)`.
abbrev or_not_found : {A : Type 0} → Option A → Result JobError A
or_not_found none = err not_found
or_not_found (some a) = ok a

-- The match on the disposition that `fail` makes.
unfoldable pub fail_disposition :
    {DateTime : Type 0} → FailureRow DateTime → Result JobError (FailureDisposition DateTime)
unfolding text_eq
fail_disposition row =
    if text_eq row.disposition (codes "retry_scheduled")
    then ok (retry_scheduled row.next_available_at)
    else if text_eq row.disposition (codes "dead_lettered")
    then ok dead_lettered
    else if text_eq row.disposition (codes "cancelled")
    then ok cancelled
    else err database

-- The match that `dead_letter` makes, which has no arm for a retry.
unfoldable pub dead_letter_disposition :
    {DateTime : Type 0} → FailureRow DateTime → Result JobError (FailureDisposition DateTime)
unfolding text_eq
dead_letter_disposition row =
    if text_eq row.disposition (codes "dead_lettered")
    then ok dead_lettered
    else if text_eq row.disposition (codes "cancelled")
    then ok cancelled
    else err database

module _ (p : Platform) (db : Database p.Value p.DateTime) where
  open p use {Value, to_string, DateTime}

  claim_query : Text → ℕ → Option (List Text) → M p db (Option (ClaimedJob Value DateTime))
  claim_query worker lease (some (t ∷ types)) =
      query p db (db.claim_job_for_types worker lease (t ∷ types))
  claim_query worker lease (some []) = query p db (db.claim_job worker lease)
  claim_query worker lease none = query p db (db.claim_job worker lease)

  unfoldable pub claim_for_types :
      WorkerId → ℕ → Option (List Text) → M p db (Option (ClaimedJob Value DateTime))
  unfolding claim_query
  claim_for_types worker_id lease_duration supported_job_types =
      bind p db (valid p db (duration_microseconds lease_duration max_lease_micros))
        λ lease. claim_query worker_id.value lease supported_job_types

  unfoldable pub claim : WorkerId → ℕ → M p db (Option (ClaimedJob Value DateTime))
  unfolding claim_for_types
  claim worker_id lease_duration = claim_for_types worker_id lease_duration none

  unfoldable pub heartbeat : JobId → WorkerId → ℕ → M p db DateTime
  heartbeat job_id worker_id lease_duration =
      bind p db (valid p db (duration_microseconds lease_duration max_lease_micros))
        λ lease. query p db (db.heartbeat_job job_id worker_id.value lease)

  unfoldable pub cancellation_requested : JobId → WorkerId → M p db Bool
  cancellation_requested job_id worker_id =
      bind p db (query p db (db.job_cancellation_requested job_id worker_id.value))
        λ row. lift p db (or_not_found row)

  unfoldable pub get : JobId → M p db (Job DateTime)
  get job_id =
      bind p db (query p db (db.job_status job_id))
        λ row. lift p db (and_then (or_not_found row) job_row_into_model)

  -- `serde_json::to_string(&result).map_err(|_| JobError::Database)`.
  abbrev serialised : Value → Result JobError Text
  serialised result = elim (to_string result) [ none ↦ err database | some s ↦ ok s ]

  unfoldable pub complete : JobId → WorkerId → Value → M p db (Job DateTime)
  complete job_id worker_id result = bind p db (valid p db (validate_json_object p result)) λ _.
      bind p db (lift p db (serialised result))
        λ text. bind p db (query p db (db.complete_job job_id worker_id.value text)) λ _. get job_id

  unfoldable pub fail : JobId → WorkerId → Text → ℕ → M p db (FailureDisposition DateTime)
  fail job_id worker_id failure_code retry_delay =
      bind p db (valid p db (validate_failure_code failure_code)) λ _.
        bind p db (valid p db (duration_microseconds retry_delay max_retry_micros)) λ retry.
          bind p db (query p db (db.fail_job job_id worker_id.value failure_code retry))
            λ row. lift p db (fail_disposition row)

  unfoldable pub dead_letter : JobId → WorkerId → Text → M p db (FailureDisposition DateTime)
  dead_letter job_id worker_id failure_code =
      bind p db (valid p db (validate_failure_code failure_code)) λ _.
        bind p db (query p db (db.dead_letter_job job_id worker_id.value failure_code))
          λ row. lift p db (dead_letter_disposition row)

  unfoldable pub request_cancel : JobId → Text → M p db (Job DateTime)
  request_cancel job_id message =
      bind p db (valid p db (validate_message message max_cancel_message_chars))
        λ _. bind p db (query p db (db.request_job_cancel job_id message)) λ _. get job_id
