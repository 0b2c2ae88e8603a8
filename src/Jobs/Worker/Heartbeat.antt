-- ===== src/Jobs/Worker/Heartbeat.antt =====
-- What the heartbeat task tells the worker.
use tmdb_mirror.Prelude.{
  ◌≡◌, refl, ◌⊎◌, inl, inr, Bool, true, false, List, [], ◌∷◌, none, some, Result, ok, err,
}
use tmdb_mirror.Jobs.Error.{JobError}
use tmdb_mirror.Jobs.Model.{Platform, JobId}
use tmdb_mirror.Jobs.Repository.{Database}
use tmdb_mirror.Jobs.Repository.Lease.{heartbeat, cancellation_requested}
use tmdb_mirror.Jobs.Worker.{WorkerConfig}
use tmdb_mirror.Jobs.Worker.Loop.{
  HeartbeatEnd, told_to_stop, signalled_lease_lost, signalled_job_cancelled, heartbeat_tick,
  heartbeat_task,
}

module _ (p : Platform) (db : Database p.Value p.DateTime) (config : WorkerConfig)
    (job : JobId) where
  open p use {DateTime}
  open db use {State}

  abbrev pub beat : State → Result JobError DateTime × State
  beat = heartbeat p db job config.worker_id config.lease_duration

  abbrev pub poll : State → Result JobError Bool × State
  poll = cancellation_requested p db job config.worker_id

  -- The lease was renewed at a tick in state `s`, and the poll behind it answered `asked`.
  abbrev pub Renewed : State → Bool → Type 0
  Renewed s asked = (t : DateTime) × ((beat s).0 ≡ ok t) × ((poll (beat s).1).0 ≡ ok asked)

  -- The renewal at a tick in state `s` failed, or the poll behind it did.
  abbrev pub Failed : State → Type 0
  Failed s =
      ((e : JobError) × ((beat s).0 ≡ err e))
      ⊎ ((e : JobError) × (t : DateTime) × ((beat s).0 ≡ ok t) × ((poll (beat s).1).0 ≡ err e))

  -- The state behind a tick at which the lease was renewed.
  abbrev pub renewed : State → State
  renewed s = (poll (beat s).1).1

  -- How the task ends: every tick but the last renews the lease and finds no cancellation.
  pub data Beats : List (State → State) → State → HeartbeatEnd → Type 0 where
    stop : {s : State} → Beats [] s told_to_stop
    lost :
        {before : State → State} {ticks : List (State → State)} {s : State}
        → Failed (before s)
        → Beats (before ∷ ticks) s signalled_lease_lost
    asked :
        {before : State → State} {ticks : List (State → State)} {s : State}
        → Renewed (before s) true
        → Beats (before ∷ ticks) s signalled_job_cancelled
    on :
        {before : State → State} {ticks : List (State → State)} {s : State} {e : HeartbeatEnd}
        → Renewed (before s) false
        → Beats ticks (renewed (before s)) e
        → Beats (before ∷ ticks) s e

  -- What a tick in state `s` comes to, with the reason.
  abbrev Tick : State → Type 0
  Tick s =
      (((heartbeat_tick p db config job s).0 ≡ some signalled_lease_lost) × Failed s)
      ⊎ (((heartbeat_tick p db config job s).0 ≡ some signalled_job_cancelled) × Renewed s true)
      ⊎ (((heartbeat_tick p db config job s).0 ≡ none)
          × ((heartbeat_tick p db config job s).1 ≡ renewed s)
          × Renewed s false)

  Tick-of :
      (s : State) (r : Result JobError DateTime) (q : Result JobError Bool)
      → (beat s).0 ≡ r
      → (poll (beat s).1).0 ≡ q
      → Tick s
  unfolding heartbeat_tick
  Tick-of s (err e) q h k = inl (rw (h, heartbeat_tick) refl, inl (e, h))
  Tick-of s (ok t) (err e) h k = inl (rw (h, k, heartbeat_tick) refl, inr (e, t, h, k))
  Tick-of s (ok t) (ok true) h k = inr (inl (rw (h, k, heartbeat_tick) refl, (t, h, k)))
  Tick-of s (ok t) (ok false) h k =
      inr (inr (rw (h, k, heartbeat_tick) refl, rw (h, heartbeat_tick) refl, (t, h, k)))

  Tick-cases : (s : State) → Tick s
  Tick-cases s = Tick-of s (beat s).0 (poll (beat s).1).0 refl refl

  -- The task ends the way `Beats` says: it reports a lost lease exactly at the first tick whose
  -- renewal or poll fails, a cancellation at the first renewed tick that finds one, and stops by
  -- itself in no other case.
  pub heartbeat_task-Beats :
      (ticks : List (State → State)) (s : State)
      → Beats ticks s (heartbeat_task p db config job ticks s).0
  unfolding heartbeat_task
  heartbeat_task-Beats [] s = stop
  heartbeat_task-Beats (before ∷ ticks) s = elim (Tick-cases (before s)) [
    | inl (e, f) ↦ rw (e, heartbeat_task) (lost f)
    | inr (inl (e, a)) ↦ rw (e, heartbeat_task) (asked a)
    | inr (inr (e, next, a)) ↦
        rw (e, heartbeat_task) (rw next (on a (heartbeat_task-Beats ticks (renewed (before s)))))
  ]
