-- ===== src/Jobs/Worker/Recording.antt =====
-- What a worker records of a claimed job.
use tmdb_mirror.Prelude.{
  ℕ, ◌≡◌, refl, ◌≢◌, Bool, true, false, Option, none, some, Text, codes, Result, ok, err, arith,
  if◌then◌else◌, Bool-cases, inl, inr,
}
use tmdb_mirror.Jobs.Error.{JobError, not_found, lease_lost}
use tmdb_mirror.Jobs.Model.{Platform, ClaimedJob, retry_scheduled}
use tmdb_mirror.Jobs.Repository.{Database, FailureRow}
use tmdb_mirror.Jobs.Repository.Lease.{complete, fail, dead_letter, dead_letter_disposition}
use tmdb_mirror.Jobs.Worker.{
  JobExecutionError, WorkerConfig, WorkerError, repository, Race, shutdown, lost_lease,
  job_cancelled, finished, second, acknowledge, record_terminal_failure, record_outcome,
  run_execution, execute_claimed, unwrap_execution,
}

-- The queue operation that settles a job, if any.
pub data Recording (Value : Type 0) : Type 0 where
  nothing : Recording Value
  completes : Value → Recording Value
  dead_letters : Text → Recording Value
  fails : Text → ℕ → Recording Value

-- A lost lease and a missing job are no error of the worker.
abbrev pub settled : {A : Type 0} → Result JobError A → Result WorkerError (Unit {0})
settled (ok a) = ok tt
settled (err lease_lost) = ok tt
settled (err not_found) = ok tt
settled (err e) = err (repository e)

-- A dead-lettering that succeeds never answers with a retry.
dead_letter_disposition-ne :
    {DateTime : Type 0} (row : FailureRow DateTime) (t : DateTime)
    → dead_letter_disposition row ≢ ok (retry_scheduled t)
unfolding dead_letter_disposition
dead_letter_disposition-ne row t = ground arith

module _ (p : Platform) (db : Database p.Value p.DateTime) (config : WorkerConfig) where
  open p use {Value, empty_object, DateTime}
  open db use {State}

  -- What the end of an execution asks the queue to record.
  abbrev pub of_execution : Option (Result JobExecutionError Value) → Recording Value
  of_execution none = fails (codes "execution_failed") second
  of_execution (some (ok value)) = completes value
  of_execution (some (err e)) =
      if e.terminal then dead_letters e.code else fails e.code e.retry_delay

  -- A job whose cancellation is asked for is completed with an empty result; otherwise the race
  -- decides: nothing on shutdown and on a lost lease.
  abbrev pub recording : Bool → Race Value → Recording Value
  recording true race = completes empty_object
  recording false shutdown = nothing
  recording false lost_lease = nothing
  recording false job_cancelled = completes empty_object
  recording false (finished result) = of_execution result

  abbrev pub perform :
      ClaimedJob Value DateTime → Recording Value → State → Result WorkerError (Unit {0}) × State
  perform job nothing s = (ok tt, s)
  perform job (completes value) s =
      let (r, t) = complete p db job.job_id config.worker_id value s in (settled r, t)
  perform job (dead_letters code) s =
      let (r, t) = dead_letter p db job.job_id config.worker_id code s in (settled r, t)
  perform job (fails code delay) s =
      let (r, t) = fail p db job.job_id config.worker_id code delay s in (settled r, t)

  dead_letter-ne :
      (job : ClaimedJob Value DateTime) (code : Text) (s : State) (t : DateTime)
      → (dead_letter p db job.job_id config.worker_id code s).0 ≢ ok (retry_scheduled t)
  unfolding dead_letter
  dead_letter-ne job code s t = grind (arith, dead_letter_disposition-ne)

  acknowledge-perform :
      (job : ClaimedJob Value DateTime) (s : State)
      → acknowledge p db config job s ≡ perform job (completes empty_object) s
  unfolding acknowledge
  acknowledge-perform job s = ground arith

  terminal-perform :
      (job : ClaimedJob Value DateTime) (e : JobExecutionError) (s : State)
      → record_terminal_failure p db config job e s ≡ perform job (dead_letters e.code) s
  unfolding record_terminal_failure
  terminal-perform job e s = grind (arith, dead_letter-ne job e.code s)

  outcome-perform :
      (job : ClaimedJob Value DateTime) (result : Option (Result JobExecutionError Value))
      (s : State)
      → record_outcome p db config job (unwrap_execution p db config result) s
        ≡ perform job (of_execution result) s
  unfolding record_outcome
  outcome-perform job none s = ground arith
  outcome-perform job (some (ok value)) s = ground arith
  outcome-perform job (some (err e)) s = ground (arith, terminal-perform job e s)

  race-perform :
      (job : ClaimedJob Value DateTime) (race : Race Value) (s : State)
      → run_execution p db config job race s ≡ perform job (recording false race) s
  unfolding run_execution
  race-perform job shutdown s = refl
  race-perform job lost_lease s = refl
  race-perform job job_cancelled s = acknowledge-perform job s
  race-perform job (finished result) s = outcome-perform job result s

  -- `execute_claimed` settles a job by at most one queue operation, the one that `recording` names,
  -- and reports its error unless the lease or the job is gone.
  pub execute_claimed-perform :
      (job : ClaimedJob Value DateTime) (race : Race Value) (during : State → State) (s : State)
      → execute_claimed p db config job race during s
        ≡ perform job
            (recording job.cancellation_requested race)
            (if job.cancellation_requested then s else during s)
  unfolding execute_claimed
  execute_claimed-perform job race during s = elim (Bool-cases job.cancellation_requested) [
    | inl asked ↦ rw (asked, execute_claimed) (acknowledge-perform job s)
    | inr running ↦ rw (running, execute_claimed) (race-perform job race (during s))
  ]
