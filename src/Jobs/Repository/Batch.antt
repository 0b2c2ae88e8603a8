-- ===== src/Jobs/Repository/Batch.antt =====
-- crates/tmdb-jobs/src/repository.rs: bulk submission.
use tmdb_mirror.Prelude.{
  ℕ, zero, suc, Bool, true, false, ◌&&◌, List, [], ◌∷◌, map, ltb, ◌==◌, if◌then◌else◌, length, Text,
  Result, ok, err,
}
use tmdb_mirror.Jobs.Error.{JobError, database}
use tmdb_mirror.Jobs.Model.{Platform, JobId, NewJob, SubmitOutcome}
use tmdb_mirror.Jobs.Repository.{
  Database, SqlxError, SubmitRow, M, is_serialization_failure, map_database_error,
  prepare_submit_batch, batch_requests, submit_outcome,
}

unfoldable pub submit_outcomes : List SubmitRow → List SubmitOutcome
unfolding submit_outcome
submit_outcomes rows = map submit_outcome rows

module _ (p : Platform) (db : Database p.Value p.DateTime) where
  open p use {Value, DateTime}
  open db use {State}

  -- `for attempt in 0..3` over the lateral statement; each round makes new identifiers.
  unfoldable pub submit_many_loop :
      (ℕ → ℕ → JobId)
      → ℕ
      → ℕ
      → List (NewJob Value DateTime)
      → List Text
      → List ℕ
      → M p db (List SubmitOutcome)
  unfolding submit_outcomes batch_requests
  submit_many_loop new_id zero attempt jobs payloads positions s = (err database, s)
  submit_many_loop new_id (suc rounds) attempt jobs payloads positions s =
      let (result, s') =
        db.submit_jobs (batch_requests p (new_id attempt) jobs payloads positions) s in
      let again = submit_many_loop new_id rounds (suc attempt) jobs payloads positions s' in
      elim result [
        | ok rows ↦
            if length rows == length jobs
            then (ok (submit_outcomes rows), s')
            else (err database, s')
        | err error ↦
            if is_serialization_failure error && ltb attempt 2
            then again
            else (err (map_database_error error), s')
      ]

  abbrev is_empty_batch : List (NewJob Value DateTime) → Bool
  is_empty_batch [] = true
  is_empty_batch (job ∷ jobs) = false

  -- `acquired` says whether the pool gave a connection.
  unfoldable pub submit_many :
      (ℕ → ℕ → JobId) → Bool → List (NewJob Value DateTime) → M p db (List SubmitOutcome)
  submit_many new_id acquired jobs s = elim (prepare_submit_batch p jobs) [
    | err error ↦ (err error, s)
    | ok batch ↦
        if is_empty_batch jobs
        then (ok [], s)
        else if acquired
        then submit_many_loop new_id 3 0 jobs batch.0 batch.1 s
        else (err database, s)
  ]

  -- The statement has answered: one row for each job is expected.
  abbrev pub checked_rows :
      ℕ → Result SqlxError (List SubmitRow) × State → Result JobError (List SubmitOutcome) × State
  checked_rows count (err error, s) = (err (map_database_error error), s)
  checked_rows count (ok rows, s) =
      if length rows == count then (ok (submit_outcomes rows), s) else (err database, s)

  abbrev pub submit_prepared :
      (ℕ → JobId)
      → List (NewJob Value DateTime)
      → Result JobError (List Text × List ℕ)
      → M p db (List SubmitOutcome)
  submit_prepared new_id jobs (err error) s = (err error, s)
  submit_prepared new_id [] (ok batch) s = (ok [], s)
  submit_prepared new_id (job ∷ jobs) (ok batch) s =
      checked_rows (length (job ∷ jobs))
        (db.submit_jobs (batch_requests p new_id (job ∷ jobs) batch.0 batch.1) s)

  unfoldable pub submit_many_in_transaction :
      (ℕ → JobId) → List (NewJob Value DateTime) → M p db (List SubmitOutcome)
  submit_many_in_transaction new_id jobs s =
      submit_prepared new_id jobs (prepare_submit_batch p jobs) s
