-- ===== src/Jobs/Worker/Running.antt =====
-- When the polling loop ends.
use tmdb_mirror.Prelude.{◌≡◌, ◌≢◌, Bool, List, [], ◌∷◌, Option, Text, Result, arith, All}
use tmdb_mirror.Jobs.Error.{JobError, database}
use tmdb_mirror.Jobs.Model.{Platform, ClaimedJob}
use tmdb_mirror.Jobs.Repository.{Database}
use tmdb_mirror.Jobs.Worker.{WorkerConfig, WorkerError, repository}
use tmdb_mirror.Jobs.Worker.Loop.{
  gate_closed, Round, failed, return, after_execution, after_claim, after_gate, run_round, run,
}

module _ (p : Platform) (db : Database p.Value p.DateTime) (config : WorkerConfig) where
  open p use {Value, DateTime}
  open db use {State}

  after_execution-ne :
      (slept : Bool) (r : Result WorkerError (Unit {0}))
      → after_execution p db config slept r ≢ return (failed (repository database))
  unfolding after_execution
  after_execution-ne slept r = ground arith

  after_claim-ne :
      (round : Round Value State) (r : Result JobError (Option (ClaimedJob Value DateTime)))
      (s : State)
      → (after_claim p db config round r s).0 ≢ return (failed (repository database))
  unfolding after_claim
  after_claim-ne round r s = grind (arith, after_execution-ne)

  run_round-failed :
      (types : Option (List Text)) (round : Round Value State) (s : State)
      → (run_round p db config types round s).0 ≡ return (failed (repository database))
      → round.gate ≡ gate_closed
  unfolding run_round after_gate
  run_round-failed types round s h = grind (arith, after_claim-ne)

  -- The polling loop never ends with a database failure as long as its semaphore stays open: such
  -- failures, in a claim or in recording an outcome, are waited for and retried.
  pub run-ne-database :
      (types : Option (List Text)) (rounds : List (Round Value State)) (s : State)
      → All (λ (r : Round Value State). r.gate ≢ gate_closed) rounds
      → (run p db config types rounds s).0 ≢ failed (repository database)
  unfolding run
  run-ne-database types [] s open_gates h = cc
  run-ne-database types (round ∷ rounds) s (here, later) h =
      let (next, t) = run_round p db config types round s in
      ground (arith, run_round-failed types round s, run-ne-database types rounds t later)
