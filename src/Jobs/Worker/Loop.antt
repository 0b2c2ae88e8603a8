-- ===== src/Jobs/Worker/Loop.antt =====
-- crates/tmdb-jobs/src/worker.rs: the polling loop and the heartbeat task.
use tmdb_mirror.Prelude.{
  Bool, true, false, List, [], ◌∷◌, Option, none, some, if◌then◌else◌, Text, Result, ok, err,
}
use tmdb_mirror.Jobs.Error.{JobError, database}
use tmdb_mirror.Jobs.Model.{Platform, JobId, ClaimedJob}
use tmdb_mirror.Jobs.Repository.{Database}
use tmdb_mirror.Jobs.Repository.Lease.{claim_for_types, heartbeat, cancellation_requested}
use tmdb_mirror.Jobs.Worker.{WorkerConfig, WorkerError, repository, Race, execute_claimed}

-- The first `select!` of a round: cancellation, a closed semaphore or a permit.
pub data Gate : Type 0 where
  gate_cancelled gate_closed gate_acquired : Gate

-- What the runtime decides in one round of `run`.
pub record Round (Value : Type 0) (State : Type 0) : Type 0 where
  pub gate : Gate
  -- The claim is cut short by cancellation.
  pub claim_cancelled : Bool
  -- The sleep of the round (after an empty claim or a database failure) ends by itself.
  pub slept : Bool
  pub race : Race Value
  -- The rest of the system, before the claim and while the job executes.
  pub before : State → State
  pub during : State → State

-- How `run` ends: by cancellation, by an error, or not yet after the rounds given.
pub data RunEnd : Type 0 where
  stopped : RunEnd
  failed : WorkerError → RunEnd
  looping : RunEnd

-- How the heartbeat task ends: stopped by the worker, or after it cancelled one of two tokens.
pub data HeartbeatEnd : Type 0 where
  told_to_stop signalled_lease_lost signalled_job_cancelled : HeartbeatEnd

module _ (p : Platform) (db : Database p.Value p.DateTime) (config : WorkerConfig) where
  open p use {Value, DateTime}
  open db use {State}

  -- What the loop does with a round's result: go on, or end.
  pub data Next : Type 0 where
    continue : Next
    return : RunEnd → Next

  abbrev pub wait_then : Bool → Next
  wait_then true = continue
  wait_then false = return stopped

  unfoldable pub after_execution : Bool → Result WorkerError (Unit {0}) → Next
  after_execution slept (ok _) = continue
  after_execution slept (err (repository database)) = wait_then slept
  after_execution slept (err error) = return (failed error)

  unfoldable pub after_claim :
      Round Value State
      → Result JobError (Option (ClaimedJob Value DateTime))
      → State
      → Next × State
  unfolding after_execution
  after_claim round (err database) s = (wait_then round.slept, s)
  after_claim round (err error) s = (return (failed (repository error)), s)
  after_claim round (ok none) s = (wait_then round.slept, s)
  after_claim round (ok (some job)) s =
      let (r, s') = execute_claimed p db config job round.race round.during s in
      (after_execution round.slept r, s')

  unfoldable pub after_gate : Gate → Option (List Text) → Round Value State → State → Next × State
  unfolding after_claim
  after_gate gate_cancelled types round s = (return stopped, s)
  after_gate gate_closed types round s = (return (failed (repository database)), s)
  after_gate gate_acquired types round s =
      if round.claim_cancelled
      then (return stopped, round.before s)
      else let (claim, s') =
          claim_for_types p db config.worker_id config.lease_duration types (round.before s) in
        after_claim round claim s'

  -- One round of the loop.
  unfoldable pub run_round : Option (List Text) → Round Value State → State → Next × State
  unfolding after_gate
  run_round types round s = after_gate round.gate types round s

  unfoldable pub run : Option (List Text) → List (Round Value State) → State → RunEnd × State
  run types [] s = (looping, s)
  run types (round ∷ rounds) s =
      let (next, s') = run_round types round s in
      let later = run types rounds s' in elim next [ continue ↦ later | return end ↦ (end, s') ]

  -- One tick of the heartbeat task; `none` lets it go on.
  unfoldable pub heartbeat_tick : JobId → State → Option HeartbeatEnd × State
  heartbeat_tick job_id s =
      let (beat, s₁) = heartbeat p db job_id config.worker_id config.lease_duration s in
      elim beat [
        | err _ ↦ (some signalled_lease_lost, s₁)
        | ok _ ↦
            let (asked, s₂) = cancellation_requested p db job_id config.worker_id s₁ in
            (
              elim asked [
                | ok true ↦ some signalled_job_cancelled
                | ok false ↦ none
                | err _ ↦ some signalled_lease_lost
              ],
              s₂,
            )
      ]

  -- The task after its first, immediate tick; each entry is what happens before one more tick, and
  -- the end of the list is the worker's `stop`.
  unfoldable pub heartbeat_task : JobId → List (State → State) → State → HeartbeatEnd × State
  heartbeat_task job_id [] s = (told_to_stop, s)
  heartbeat_task job_id (before ∷ ticks) s =
      let (end, s') = heartbeat_tick job_id (before s) in
      let later = heartbeat_task job_id ticks s' in elim end [ none ↦ later | some e ↦ (e, s') ]
