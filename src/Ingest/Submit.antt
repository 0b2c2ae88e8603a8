-- ===== src/Ingest/Submit.antt =====
-- apps/tmdb-ingest/src/jobs.rs: the transactions in which the worker submits its child jobs.
-- The state of the database and the statements on it are parameters; a query that fails answers
-- `none`, and a transaction that is dropped before its end is rolled back.
pub mod Whole
use tmdb_mirror.Prelude.{
  ℕ, ◌+◌, Bool, true, false, not, List, [], ◌∷◌, Option, none, some, length, Result, ok, err, Text,
  codes, if◌then◌else◌,
}
use tmdb_mirror.Jobs.Error.{
  JobError, validation, not_found, lease_lost, rejected, capacity, database,
}
use tmdb_mirror.Jobs.Model.{Platform, JobId, NewJob, SubmitOutcome, is_empty}
use tmdb_mirror.Jobs.Repository.{Database}
use tmdb_mirror.Jobs.Repository.Batch.{submit_many_in_transaction}
use tmdb_mirror.Jobs.Worker.{JobExecutionError, retry}
use tmdb_mirror.Ingest.Build.{seconds, unavailable, map_submission_error}

-- The statements of a transaction, over the state of the database.
pub record Transactions (State : Type 0) : Type 0 where
  pub begin : State → Bool × State
  pub commit : State → Bool × State
  pub rollback : State → Bool × State
  -- The rollback of a transaction that goes out of scope.
  pub dropped : State → State
  -- `ops.ingest_child_submissions_enabled()`.
  pub child_submissions_enabled : State → Option Bool × State
  -- `pg_try_advisory_xact_lock` on the admission of refresh jobs.
  pub try_admission : State → Option Bool × State

-- What the worker does with a database in a state: a result, and the state that it leaves.
abbrev pub M {ℓ} : Type 0 → Type ℓ → Type ℓ
M State A = State → Result JobExecutionError A × State

-- A statement without an answer, and a query, with the error that all of them have.
abbrev pub done_or_unavailable : Bool → Result JobExecutionError (Unit {0})
done_or_unavailable true = ok tt
done_or_unavailable false = err unavailable

abbrev pub answer_or_unavailable {ℓ} : {A : Type ℓ} → Option A → Result JobExecutionError A
answer_or_unavailable none = err unavailable
answer_or_unavailable (some a) = ok a

module _ {State : Type 0} where
  -- `.await?`.
  abbrev pub after {ℓ κ} :
      {A : Type ℓ} {B : Type κ}
      → Result JobExecutionError A × State
      → (A → M State B)
      → Result JobExecutionError B × State
  after (err e, s) next = (err e, s)
  after (ok a, s) next = next a s

  infixl 5 ◌>>=◌
  abbrev pub ◌>>=◌ {ℓ κ} : {A : Type ℓ} {B : Type κ} → M State A → (A → M State B) → M State B
  ◌>>=◌ first next s = after (first s) next

  infixl 5 ◌>>◌
  abbrev pub ◌>>◌ {ℓ} : {B : Type ℓ} → M State (Unit {0}) → M State B → M State B
  first >> next = first >>= λ done. next

  abbrev pub pure {ℓ} : {A : Type ℓ} → A → M State A
  pure a s = (ok a, s)

  abbrev pub lift {ℓ} : {A : Type ℓ} → Result JobExecutionError A → M State A
  lift r s = (r, s)

  abbrev pub throw {ℓ} : {A : Type ℓ} → JobExecutionError → M State A
  throw e s = (err e, s)

  abbrev pub statement : (State → Bool × State) → M State (Unit {0})
  statement run s = (done_or_unavailable (run s).0, (run s).1)

  abbrev pub query {ℓ} : {A : Type ℓ} → (State → Option A × State) → M State A
  query run s = (answer_or_unavailable (run s).0, (run s).1)

  -- The transaction is dropped when its body returns an error.
  abbrev pub closing {ℓ} :
      {A : Type ℓ}
      → (State → State)
      → Result JobExecutionError A × State
      → Result JobExecutionError A × State
  closing dropped (err e, s) = (err e, dropped s)
  closing dropped (ok a, s) = (ok a, s)

  abbrev pub in_transaction {ℓ} : {A : Type ℓ} → Transactions State → M State A → M State A
  in_transaction tx body = do statement tx.begin; λ s. closing tx.dropped (body s)

-- The outcomes that made a job.
abbrev pub count_new : List SubmitOutcome → ℕ
count_new [] = 0
count_new (o ∷ outcomes) = if o.duplicate then count_new outcomes else count_new outcomes + 1

abbrev pub queue_full : Text → JobExecutionError
queue_full failure_code = retry failure_code (seconds 10)

-- `.pop()` of a list of at most one outcome.
abbrev pub last_of : List SubmitOutcome → Option SubmitOutcome
last_of [] = none
last_of (o ∷ []) = some o
last_of (o ∷ outcomes) = last_of outcomes

module _ (p : Platform) (db : Database p.Value p.DateTime) (tx : Transactions db.State)
    (new_id : ℕ → JobId) where
  abbrev pub Jobs : Type 0
  Jobs = List (NewJob p.Value p.DateTime)

  -- The rows of one submission, after its transaction is committed.
  abbrev pub committed : List SubmitOutcome → M db.State (List SubmitOutcome)
  committed outcomes = do statement tx.commit; pure outcomes

  abbrev pub rolled_back {ℓ} : {A : Type ℓ} → Result JobExecutionError A → M db.State A
  rolled_back r = do statement tx.rollback; lift r

  abbrev pub on_submitted :
      (JobError → M db.State (List SubmitOutcome))
      → Result JobError (List SubmitOutcome) × db.State
      → Result JobExecutionError (List SubmitOutcome) × db.State
  on_submitted failed (err e, s) = failed e s
  on_submitted failed (ok outcomes, s) = committed outcomes s

  -- `submit_many_in_transaction` and the commit.
  abbrev pub submitting :
      (JobError → M db.State (List SubmitOutcome)) → Jobs → M db.State (List SubmitOutcome)
  submitting failed jobs s = on_submitted failed (submit_many_in_transaction p db new_id jobs s)

  -- `if !ingest_child_submissions_enabled(..) { rollback; return Ok(..) }` before the rest.
  unfoldable pub when_enabled : M db.State (List SubmitOutcome) → M db.State (List SubmitOutcome)
  when_enabled rest = do
    enabled ← query tx.child_submissions_enabled
    if not enabled then rolled_back (ok []) else rest

  unfoldable pub submit_ingest_child_jobs : Jobs → M db.State (List SubmitOutcome)
  unfolding when_enabled
  submit_ingest_child_jobs jobs =
      if is_empty jobs
      then pure []
      else in_transaction tx (when_enabled (submitting (λ e. throw (map_submission_error e)) jobs))

  unfoldable pub submit_ingest_child_job :
      NewJob p.Value p.DateTime → M db.State (Option SubmitOutcome)
  unfolding submit_ingest_child_jobs
  submit_ingest_child_job job = do
    outcomes ← submit_ingest_child_jobs (job ∷ [])
    pure (last_of outcomes)

  abbrev pub on_capacity : Text → JobError → M db.State (List SubmitOutcome)
  on_capacity failure_code capacity = rolled_back (err (queue_full failure_code))
  on_capacity failure_code e = throw (map_submission_error e)

  -- The same for the turn to admit refresh jobs.
  unfoldable pub with_turn :
      Text → M db.State (List SubmitOutcome) → M db.State (List SubmitOutcome)
  with_turn failure_code rest = do
    turn ← query tx.try_admission
    if not turn then rolled_back (err (queue_full failure_code)) else rest

  unfoldable pub submit_refresh_jobs_with_capacity : Jobs → Text → M db.State ℕ
  unfolding when_enabled with_turn
  submit_refresh_jobs_with_capacity jobs failure_code = if is_empty jobs then pure 0 else do
    outcomes ←
        in_transaction tx
          (when_enabled (with_turn failure_code (submitting (on_capacity failure_code) jobs)))
    pure (count_new outcomes)
