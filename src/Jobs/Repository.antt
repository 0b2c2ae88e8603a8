-- ===== src/Jobs/Repository.antt =====
-- crates/tmdb-jobs/src/repository.rs: the client of the database's job functions.
-- The SQL functions of the `ops` schema, with the state that they change, are the parameter
-- `Database`; an operation of the repository passes that state on. Durations are in nanoseconds.
pub mod Durations
pub mod Batch
pub mod Bulk
pub mod Lease
pub mod Submission
use tmdb_mirror.Prelude.{
  ℕ, zero, suc, ◌-◌, ◌/◌, ◌%◌, ◌*◌, ◌^◌, ◌≡◌, Bool, true, false, not, ◌||◌, ◌&&◌, List, [], ◌∷◌,
  map, Option, none, some, ltb, leb, ◌==◌, if◌then◌else◌, length, Text, codes, text_eq, Result, ok,
  err, map_err, ◌>>=◌ as and_then, ℤ,
}
use tmdb_mirror.Jobs.Error.{
  ValidationError, JobError, validation, not_found, lease_lost, rejected, capacity, database,
}
use tmdb_mirror.Jobs.Model.{
  Platform, JobId, WorkerId, JobStatus, job_status_parse, NewJob, SubmitOutcome, ClaimedJob, Job,
  FailureDisposition, retry_scheduled, dead_lettered, cancelled, validate_json_object,
  validate_failure_code, validate_message, max_lease_micros, max_retry_micros,
  max_cancel_message_chars,
}

abbrev pub max_submit_batch_size : ℕ
max_submit_batch_size = 500

-- A `sqlx::Error`, of which the code reads only the SQLSTATE of a database error.
pub record SqlxError : Type 0 where
  pub code : Option Text

unfoldable pub sqlstate : SqlxError → Option Text
sqlstate error = error.code

code_is : Option Text → Text → Bool
unfolding text_eq
code_is none t = false
code_is (some s) t = text_eq s t

unfoldable pub map_database_error : SqlxError → JobError
unfolding sqlstate code_is
map_database_error error =
    if code_is (sqlstate error) (codes "P0002")
    then not_found
    else if code_is (sqlstate error) (codes "P0001")
    then lease_lost
    else if code_is (sqlstate error) (codes "P0004")
    then capacity
    else if code_is (sqlstate error) (codes "22023")
    then rejected
    else database

-- `sqlstate(&error).as_deref() == Some("40001")`.
unfoldable pub is_serialization_failure : SqlxError → Bool
unfolding sqlstate code_is
is_serialization_failure error = code_is (sqlstate error) (codes "40001")

unfoldable pub duration_microseconds : ℕ → ℕ → Result ValidationError ℕ
duration_microseconds duration maximum =
    let microseconds = duration / 1000 in
    if (microseconds == 0)
      || ltb maximum microseconds
      || not (duration % 1000 == 0)
      || ltb (2 ^ 63 - 1) microseconds
    then err ValidationError.duration
    else if ltb microseconds (2 ^ 63)
    then ok microseconds
    else err ValidationError.duration

pub record SubmitRow : Type 0 where
  pub job_id : JobId
  pub was_duplicate : Bool

-- The arguments that `submit_job` binds.
pub record SubmitRequest (DateTime : Type 0) : Type 0 where
  pub requested_id : JobId
  pub job_type : Text
  pub payload_version : ℤ
  pub payload : Text
  pub priority : ℤ
  pub max_attempts : ℤ
  pub available_at : Option DateTime
  pub dedup_key : Text

pub record FailureRow (DateTime : Type 0) : Type 0 where
  pub disposition : Text
  pub next_available_at : DateTime

pub record JobRow (DateTime : Type 0) : Type 0 where
  pub id : JobId
  pub status : Text
  pub attempts : ℤ
  pub max_attempts : ℤ
  pub available_at : Option DateTime
  pub cancellation_requested : Bool
  pub error_message : Option Text
  pub created_at : DateTime
  pub updated_at : DateTime
  pub finished_at : Option DateTime

-- A row of a claim has the fields of `ClaimedJob`, in its order.
abbrev pub ClaimedRow : Type 0 → Type 0 → Type 0
ClaimedRow Value DateTime = ClaimedJob Value DateTime

-- The database's job functions, by name, over a state that they change.
pub record Database (Value : Type 0) (DateTime : Type 0) : Type 1 where
  pub State : Type 0
  pub submit_job : SubmitRequest DateTime → State → Result SqlxError SubmitRow × State
  -- The statement that joins `submit_job` laterally to a list of numbered requests.
  pub submit_jobs :
      List (ℕ × SubmitRequest DateTime) → State → Result SqlxError (List SubmitRow) × State
  pub claim_job : Text → ℕ → State → Result SqlxError (Option (ClaimedRow Value DateTime)) × State
  pub claim_job_for_types :
      Text → ℕ → List Text → State → Result SqlxError (Option (ClaimedRow Value DateTime)) × State
  pub heartbeat_job : JobId → Text → ℕ → State → Result SqlxError DateTime × State
  pub job_cancellation_requested : JobId → Text → State → Result SqlxError (Option Bool) × State
  pub complete_job : JobId → Text → Text → State → Result SqlxError Text × State
  pub fail_job : JobId → Text → Text → ℕ → State → Result SqlxError (FailureRow DateTime) × State
  pub dead_letter_job : JobId → Text → Text → State → Result SqlxError (FailureRow DateTime) × State
  pub request_job_cancel : JobId → Text → State → Result SqlxError (Text × Bool) × State
  pub job_status : JobId → State → Result SqlxError (Option (JobRow DateTime)) × State

-- `map_err(|error| map_database_error(&error))`.
abbrev pub checked {ℓ} : {A : Type ℓ} → Result SqlxError A → Result JobError A
checked r = map_err map_database_error r

unfoldable pub job_row_into_model :
    {DateTime : Type 0} → JobRow DateTime → Result JobError (Job DateTime)
unfolding job_status_parse
job_row_into_model row = and_then (job_status_parse row.status) (λ status. ok (record {
  id = row.id;
  status = status;
  attempts = row.attempts;
  max_attempts = row.max_attempts;
  available_at = row.available_at;
  cancellation_requested = row.cancellation_requested;
  error_message = row.error_message;
  created_at = row.created_at;
  updated_at = row.updated_at;
  finished_at = row.finished_at;
}))

-- `(0..jobs.len()).map(i32::try_from)`: the positions from `start`.
unfoldable pub positions_from : ℕ → ℕ → Result JobError (List ℕ)
positions_from start zero = ok []
positions_from start (suc count) =
    if ltb start (2 ^ 31)
    then and_then (positions_from (suc start) count) (λ rest. ok (start ∷ rest))
    else err (validation ValidationError.batch_size)

-- `collect::<Result<Vec<_>, _>>()` of the serialised payloads.
unfoldable pub collect_payloads :
    {A : Type 0} → (A → Option Text) → List A → Result JobError (List Text)
collect_payloads to_string [] = ok []
collect_payloads to_string (x ∷ xs) = elim (to_string x) [
  | none ↦ err database
  | some s ↦ and_then (collect_payloads to_string xs) (λ rest. ok (s ∷ rest))
]

unfoldable pub submit_outcome : SubmitRow → SubmitOutcome
submit_outcome row = record { job_id = row.job_id; duplicate = row.was_duplicate }

module _ (p : Platform) where
  open p use {Value, to_string, DateTime}

  unfoldable pub prepare_submit_batch :
      List (NewJob Value DateTime) → Result JobError (List Text × List ℕ)
  unfolding positions_from collect_payloads
  prepare_submit_batch jobs =
      if ltb max_submit_batch_size (length jobs)
      then err (validation ValidationError.batch_size)
      else and_then (collect_payloads (λ (j : NewJob Value DateTime). to_string j.payload) jobs)
          (λ payloads.
            and_then (positions_from 0 (length jobs)) (λ positions. ok (payloads, positions)))

  abbrev pub request : JobId → NewJob Value DateTime → Text → SubmitRequest DateTime
  request id job payload = record {
    requested_id = id;
    job_type = job.job_type;
    payload_version = job.payload_version;
    payload = payload;
    priority = job.priority;
    max_attempts = job.max_attempts;
    available_at = job.available_at;
    dedup_key = job.dedup_key;
  }

  -- The rows that `push_values` binds; `new_id` gives the identifier made at each position.
  unfoldable pub batch_requests :
      (ℕ → JobId)
      → List (NewJob Value DateTime)
      → List Text
      → List ℕ
      → List (ℕ × SubmitRequest DateTime)
  batch_requests new_id (job ∷ jobs) (payload ∷ payloads) (position ∷ positions) =
      (position, request (new_id position) job payload)
      ∷ batch_requests new_id jobs payloads positions
  batch_requests new_id _ _ _ = []

module _ (p : Platform) (db : Database p.Value p.DateTime) where
  open p use {Value, to_string, DateTime}
  open db use {State}

  abbrev pub M : Type 0 → Type 0
  M A = State → Result JobError A × State

  -- `.await?`: the next step runs on the value, in the state that the first one left.
  abbrev pub and_then_in : {Val Out : Type 0} → M Val → (Val → M Out) → M Out
  and_then_in first next s =
      let (answer, left) = first s in elim answer [ err x ↦ (err x, left) | ok v ↦ next v left ]

  -- A query with its error mapped, and a value or an error of the code itself.
  abbrev pub query : {A : Type 0} → (State → Result SqlxError A × State) → M A
  query q s = let (r, s') = q s in (checked r, s')

  abbrev pub lift : {A : Type 0} → Result JobError A → M A
  lift r s = (r, s)

  abbrev pub valid : {A : Type 0} → Result ValidationError A → M A
  valid r s = (map_err validation r, s)

  -- `for attempt in 0..3`, by the rounds left.
  unfoldable pub submit_loop : ℕ → ℕ → SubmitRequest DateTime → M SubmitOutcome
  unfolding submit_outcome
  submit_loop zero attempt request s = (err database, s)
  submit_loop (suc rounds) attempt request s =
      let (result, s') = db.submit_job request s in
      let again = submit_loop rounds (suc attempt) request s' in
      elim result [
        | ok row ↦ (ok (submit_outcome row), s')
        | err error ↦
            if is_serialization_failure error && ltb attempt 2
            then again
            else (err (map_database_error error), s')
      ]

  unfoldable pub submit : JobId → NewJob Value DateTime → M SubmitOutcome
  submit requested_id job s = elim (to_string job.payload) [
    | none ↦ (err database, s)
    | some payload ↦ submit_loop 3 0 (request p requested_id job payload) s
  ]
