-- ===== src/Jobs/Worker.antt =====
-- crates/tmdb-jobs/src/worker.rs: the polling worker. Log lines are left out.
-- What tokio decides (which branch of a `select!` is taken, how a spawned execution ends, when a
-- ticker fires) and what other processes do to the database in between are given as values.
pub mod Config
pub mod Loop
pub mod Recording
pub mod Running
pub mod Heartbeat
use tmdb_mirror.Prelude.{
  ℕ, zero, suc, ◌*◌, ◌%◌, ◌≡◌, Bool, true, false, not, ◌||◌, List, [], ◌∷◌, Option, none, some, ltb,
  leb, ◌==◌, if◌then◌else◌, Text, codes, text_eq, any, Result, ok, err,
}
use tmdb_mirror.Jobs.Error.{JobError, database, not_found, lease_lost}
use tmdb_mirror.Jobs.Model.{
  Platform, JobId, WorkerId, ClaimedJob, Job, FailureDisposition, retry_scheduled, dead_lettered,
  cancelled, canonical_failure_codes,
}
use tmdb_mirror.Jobs.Repository.{Database, M}
use tmdb_mirror.Jobs.Repository.Lease.{
  claim_for_types, heartbeat, cancellation_requested, complete, fail, dead_letter,
}

-- `Duration::from_hours(1)`, in nanoseconds.
abbrev pub max_lease_duration : ℕ
max_lease_duration = 3600000000000

-- One second, in nanoseconds.
abbrev pub second : ℕ
second = 1000000000

pub record JobExecutionError : Type 0 where
  pub code : Text
  pub retry_delay : ℕ
  pub terminal : Bool

unfoldable pub retry : Text → ℕ → JobExecutionError
retry code retry_delay = record { code = code; retry_delay = retry_delay; terminal = false }

unfoldable pub dead_letter_error : Text → JobExecutionError
dead_letter_error code = record { code = code; retry_delay = 0; terminal = true }

pub record WorkerConfig : Type 0 where
  pub worker_id : WorkerId
  pub lease_duration : ℕ
  pub heartbeat_interval : ℕ
  pub idle_poll_interval : ℕ

pub data WorkerConfigError : Type 0 where
  timing : WorkerConfigError

pub data WorkerError : Type 0 where
  repository : JobError → WorkerError

-- `WorkerConfig::try_new`.
unfoldable pub try_new : WorkerId → ℕ → ℕ → ℕ → Result WorkerConfigError WorkerConfig
try_new worker_id lease_duration heartbeat_interval idle_poll_interval =
    if (lease_duration == 0)
      || ltb max_lease_duration lease_duration
      || (heartbeat_interval == 0)
      || leb lease_duration heartbeat_interval
      || (idle_poll_interval == 0)
      || not (lease_duration % 1000 == 0)
      || not (heartbeat_interval % 1000 == 0)
      || not (idle_poll_interval % 1000 == 0)
    then err timing
    else ok (record {
      worker_id = worker_id;
      lease_duration = lease_duration;
      heartbeat_interval = heartbeat_interval;
      idle_poll_interval = idle_poll_interval;
    })

unfoldable pub ignore_lost_lease : JobError → Result WorkerError (Unit {0})
ignore_lost_lease lease_lost = ok tt
ignore_lost_lease not_found = ok tt
ignore_lost_lease other = err (repository other)

unfoldable pub record_repository_error : JobError → Result WorkerError (Unit {0})
record_repository_error lease_lost = ok tt
record_repository_error not_found = ok tt
record_repository_error other = err (repository other)

unfoldable pub log_failure_code : Text → Text
unfolding text_eq
log_failure_code code =
    if any (text_eq code) canonical_failure_codes then code else codes "custom_failure"

unfoldable pub is_expected_backpressure : Text → Bool
unfolding text_eq
is_expected_backpressure code =
    text_eq code (codes "export_queue_incomplete")
    || text_eq code (codes "changes_queue_full")
    || text_eq code (codes "missing_queue_full")

-- Which branch the `select!` over an execution takes. In the last one the spawned task has ended,
-- by a panic or an abort (`none`) or with the executor's result.
pub data Race (Value : Type 0) : Type 0 where
  shutdown lost_lease job_cancelled : Race Value
  finished : Option (Result JobExecutionError Value) → Race Value

module _ (p : Platform) (db : Database p.Value p.DateTime) (config : WorkerConfig) where
  open p use {Value, empty_object, DateTime}
  open db use {State}

  abbrev pub W : Type 0
  W = State → Result WorkerError (Unit {0}) × State

  -- `complete(..).await.map(|_| ()).or_else(ignore_lost_lease)`.
  unfoldable pub acknowledge : ClaimedJob Value DateTime → W
  unfolding ignore_lost_lease
  acknowledge job s =
      let (r, s') = complete p db job.job_id config.worker_id empty_object s in
      (elim r [ ok _ ↦ ok tt | err e ↦ ignore_lost_lease e ], s')

  unfoldable pub record_success : ClaimedJob Value DateTime → Value → W
  unfolding record_repository_error
  record_success job value s =
      let (r, s') = complete p db job.job_id config.worker_id value s in
      (elim r [ ok _ ↦ ok tt | err e ↦ record_repository_error e ], s')

  unfoldable pub record_terminal_failure : ClaimedJob Value DateTime → JobExecutionError → W
  unfolding record_repository_error
  record_terminal_failure job error s =
      let (r, s') = dead_letter p db job.job_id config.worker_id error.code s in
      (
        elim r [
          | ok dead_lettered ↦ ok tt
          | ok cancelled ↦ ok tt
          | ok (retry_scheduled t) ↦ err (repository database)
          | err e ↦ record_repository_error e
        ],
        s',
      )

  unfoldable pub record_retryable_failure : ClaimedJob Value DateTime → JobExecutionError → W
  unfolding record_repository_error
  record_retryable_failure job error s =
      let (r, s') = fail p db job.job_id config.worker_id error.code error.retry_delay s in
      (elim r [ ok _ ↦ ok tt | err e ↦ record_repository_error e ], s')

  unfoldable pub record_outcome : ClaimedJob Value DateTime → Result JobExecutionError Value → W
  unfolding record_success record_terminal_failure record_retryable_failure
  record_outcome job (ok value) = record_success job value
  record_outcome job (err error) =
      if error.terminal
      then record_terminal_failure job error
      else record_retryable_failure job error

  -- `result.unwrap_or_else(..)`: a panicked execution counts as a retryable failure.
  abbrev pub unwrap_execution :
      Option (Result JobExecutionError Value) → Result JobExecutionError Value
  unwrap_execution none =
      err (record { code = codes "execution_failed"; retry_delay = second; terminal = false })
  unwrap_execution (some result) = result

  unfoldable pub run_execution : ClaimedJob Value DateTime → Race Value → W
  unfolding record_outcome acknowledge
  run_execution job shutdown s = (ok tt, s)
  run_execution job lost_lease s = (ok tt, s)
  run_execution job job_cancelled s = acknowledge job s
  run_execution job (finished result) s = record_outcome job (unwrap_execution result) s

  -- `during` is what the rest of the system does to the database while the job executes.
  unfoldable pub execute_claimed : ClaimedJob Value DateTime → Race Value → (State → State) → W
  unfolding run_execution acknowledge
  execute_claimed job race during s =
      if job.cancellation_requested then acknowledge job s else run_execution job race (during s)
