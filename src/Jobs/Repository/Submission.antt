-- ===== src/Jobs/Repository/Submission.antt =====
-- The retry loop of `submit` and the bulk submissions.
use tmdb_mirror.Prelude.{
  ℕ, zero, suc, ◌+◌, ◌<◌, ◌≡◌, refl, ◌⊎◌, inl, inr, Bool, true, false, ◌&&◌, some, ltb, Text,
  Result, ok, err, arith, Bool-cases,
}
use tmdb_mirror.Jobs.Error.{JobError}
use tmdb_mirror.Jobs.Model.{Platform, JobId, NewJob, SubmitOutcome}
use tmdb_mirror.Jobs.Repository.{
  SqlxError, Database, SubmitRow, SubmitRequest, map_database_error, is_serialization_failure,
  submit_outcome, submit_loop, submit, request,
}

-- What a response means to the caller, and whether it is worth another attempt.
abbrev outcome : Result SqlxError SubmitRow → Result JobError SubmitOutcome
outcome (ok row) = ok (submit_outcome row)
outcome (err e) = err (map_database_error e)

abbrev is_retryable : {A : Type 0} → Result SqlxError A → Bool
is_retryable (ok a) = false
is_retryable (err e) = is_serialization_failure e

module _ (p : Platform) (db : Database p.Value p.DateTime) (req : SubmitRequest p.DateTime) where
  open db use {State}

  -- The state before the attempt numbered `k` from 0, and the response to that attempt.
  abbrev pub before : ℕ → State → State
  before zero s = s
  before (suc k) s = before k (db.submit_job req s).1

  abbrev pub response : ℕ → State → Result SqlxError SubmitRow
  response k s = (db.submit_job req (before k s)).0

  -- `k` attempts came before, all of them serialization failures, and attempt `k` decided.
  pub record Decided (rounds : ℕ) (s : State) (k : ℕ) (r : Result JobError SubmitOutcome)
      (t : State) : Type 0 where
    pub within : k < rounds
    pub retried : (j : ℕ) → j < k → is_retryable (response j s) ≡ true
    pub decisive : (suc k ≡ rounds) ⊎ (is_retryable (response k s) ≡ false)
    pub result : r ≡ outcome (response k s)
    pub state : t ≡ before (suc k) s

  loop_again :
      (rounds attempt : ℕ) (s : State)
      → (is_retryable (response 0 s) && ltb attempt 2) ≡ true
      → submit_loop p db (suc rounds) attempt req s
        ≡ submit_loop p db rounds (suc attempt) req (before 1 s)
  unfolding submit_loop
  loop_again rounds attempt s h = ground arith

  loop_done :
      (rounds attempt : ℕ) (s : State)
      → (is_retryable (response 0 s) && ltb attempt 2) ≡ false
      → submit_loop p db (suc rounds) attempt req s ≡ (outcome (response 0 s), before 1 s)
  unfolding submit_loop
  loop_done rounds attempt s h = ground arith

  retried_before :
      (k : ℕ) (s : State)
      → is_retryable (response 0 s) ≡ true
      → ((j : ℕ) → j < k → is_retryable (response j (before 1 s)) ≡ true)
      → (j : ℕ) → j < suc k
      → is_retryable (response j s) ≡ true
  retried_before k s first rest zero lt = first
  retried_before k s first rest (suc j) lt = rest j (omega arith)

  submit_loop-Decided :
      (rounds attempt : ℕ) (s : State)
      → 0 < rounds
      → rounds + attempt ≡ 3
      → (k : ℕ) × Decided rounds s k
          (submit_loop p db rounds attempt req s).0
          (submit_loop p db rounds attempt req s).1
  submit_loop-Decided zero attempt s h e = absurd (omega arith)
  submit_loop-Decided (suc rounds) attempt s h e =
      elim (Bool-cases (is_retryable (response 0 s) && ltb attempt 2)) [
        | inr done ↦ rw (loop_done rounds attempt s done) (
          0,
          record {
            within = omega arith;
            retried = λ j lt. absurd (omega arith);
            decisive = ground arith;
            result = refl;
            state = refl;
          },
        )
        | inl again ↦
            let (k, d) =
              submit_loop-Decided rounds (suc attempt) (before 1 s) (ground arith) (omega arith) in
            rw (loop_again rounds attempt s again) (
              suc k,
              record {
                within = omega (arith, d.within);
                retried = retried_before k s (ground arith) d.retried;
                decisive = ground (arith, d.decisive);
                result = d.result;
                state = d.state;
              },
            )
      ]

-- `submit` asks the database once, twice or three times: an attempt is followed by another exactly
-- if it is one of the first two and failed to serialise, and the last attempt's answer, mapped, is
-- the result; nothing else changes the database.
pub submit-Decided :
    (p : Platform) (db : Database p.Value p.DateTime) (id : JobId) (job : NewJob p.Value p.DateTime)
    (payload : Text) (s : db.State)
    → p.to_string job.payload ≡ some payload
    → (k : ℕ) × Decided p db
        (request p id job payload)
        3
        s
        k
        (submit p db id job s).0
        (submit p db id job s).1
unfolding submit
submit-Decided p db id job payload s h =
    rw (h, submit) (submit_loop-Decided p db (request p id job payload) 3 0 s (omega arith) refl)
