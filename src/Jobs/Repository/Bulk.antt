-- ===== src/Jobs/Repository/Bulk.antt =====
-- Bulk submission: the bound, the positions and the number of outcomes.
use tmdb_mirror.Prelude.{
  ℕ, zero, suc, ◌+◌, ◌≤◌, ◌<◌, ◌≡◌, refl, ap, Bool, List, [], ◌∷◌, Option, length, Text, ok, err,
  arith, Option-cases, inl, inr, ok_of_bind,
}
use tmdb_mirror.Jobs.Error.{ValidationError, validation}
use tmdb_mirror.Jobs.Model.{Platform, JobId, NewJob, SubmitOutcome}
use tmdb_mirror.Jobs.Repository.{
  Database, SubmitRow, prepare_submit_batch, positions_from, collect_payloads,
}
use tmdb_mirror.Jobs.Repository.Batch.{submit_outcomes, submit_many_loop, submit_many}

-- The numbers from `start` on.
abbrev count_from : ℕ → ℕ → List ℕ
count_from start zero = []
count_from start (suc n) = start ∷ count_from (suc start) n

positions_from_lem :
    (start n : ℕ) → start + n < 2147483648 → positions_from start n ≡ ok (count_from start n)
unfolding positions_from
positions_from_lem start zero h = refl
positions_from_lem start (suc n) h = ground (arith, positions_from_lem (suc start) n)

length-collect :
    {A : Type 0} (f : A → Option Text) (xs : List A) {ts : List Text}
    → collect_payloads f xs ≡ ok ts
    → length ts ≡ length xs
unfolding collect_payloads
length-collect f [] h = ground arith
length-collect f (x ∷ xs) {ts} h = elim (Option-cases (f x)) [
  | inl bad ↦ ground arith
  | inr (t, e) ↦
      let (rest, got, same) =
        ok_of_bind (collect_payloads f xs) (λ rest. ok (t ∷ rest))
          (rw (e, collect_payloads) at h) in
      ground (arith, length-collect f xs got)
]

length-outcomes : (rows : List SubmitRow) → length (submit_outcomes rows) ≡ length rows
unfolding submit_outcomes
length-outcomes [] = refl
length-outcomes (r ∷ rows) = ap suc (length-outcomes rows)

-- A small batch of jobs whose payloads serialise passes, with the positions 0, 1, 2 and so on.
prepare_of :
    (p : Platform) (jobs : List (NewJob p.Value p.DateTime)) (ts : List Text)
    → length jobs ≤ 500
    → collect_payloads (λ (j : NewJob p.Value p.DateTime). p.to_string j.payload) jobs ≡ ok ts
    → prepare_submit_batch p jobs ≡ ok (ts, count_from 0 (length jobs))
unfolding prepare_submit_batch
prepare_of p jobs ts h e =
    rw (e, prepare_submit_batch) (ground (arith, positions_from_lem 0 (length jobs)))

module _ (p : Platform) (db : Database p.Value p.DateTime) (new_id : ℕ → ℕ → JobId) where
  open db use {State}

  -- More than 500 jobs are refused, and no query is made.
  submit_many_oversized :
      (acquired : Bool) (jobs : List (NewJob p.Value p.DateTime)) (s : State)
      → 500 < length jobs
      → submit_many p db new_id acquired jobs s ≡ (err (validation ValidationError.batch_size), s)
  unfolding submit_many prepare_submit_batch
  submit_many_oversized acquired jobs s h = ground arith

  length-loop :
      (rounds attempt : ℕ) (jobs : List (NewJob p.Value p.DateTime)) (ts : List Text) (ps : List ℕ)
      (s : State) {outs : List SubmitOutcome}
      → (submit_many_loop p db new_id rounds attempt jobs ts ps s).0 ≡ ok outs
      → length outs ≡ length jobs
  unfolding submit_many_loop
  length-loop zero attempt jobs ts ps s h = cc
  length-loop (suc rounds) attempt jobs ts ps s h =
      grind (arith, length-outcomes, length-loop rounds (suc attempt) jobs ts ps)

-- A bulk submission that succeeds has at most 500 jobs and returns one outcome for each; one with
-- more than 500 jobs is refused as a validation error, with no change to the database.
pub length-submit_many :
    (p : Platform) (db : Database p.Value p.DateTime) (new_id : ℕ → ℕ → JobId) (acquired : Bool)
    (jobs : List (NewJob p.Value p.DateTime)) (s : db.State)
    → ((outs : List SubmitOutcome)
        → (submit_many p db new_id acquired jobs s).0 ≡ ok outs
        → (length outs ≡ length jobs) × (length jobs ≤ 500))
      × (500 < length jobs
          → submit_many p db new_id acquired jobs s
            ≡ (err (validation ValidationError.batch_size), s))
unfolding submit_many prepare_submit_batch
length-submit_many p db new_id acquired jobs s = (
  λ outs h. grind (arith, length-loop p db new_id 3 0 jobs),
  submit_many_oversized p db new_id acquired jobs s,
)
