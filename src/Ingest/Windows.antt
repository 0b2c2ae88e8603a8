-- ===== src/Ingest/Windows.antt =====
-- apps/tmdb-ingest/src/jobs.rs and apps/tmdb-ingest/src/scheduler.rs: the windows of a daily
-- synchronisation. The row of ops.catalog_sync_state and its update are parameters.
use tmdb_mirror.Prelude.{
  ◌+◌, ◌≤◌, ◌≡◌, refl, ◌↔◌, ◌⊎◌, inl, inr, Bool, true, false, Option, none, some, Result, ok, err,
  ltb, if◌then◌else◌, Bool-cases, arith,
}
use tmdb_mirror.Jobs.Worker.{JobExecutionError}
use tmdb_mirror.Ingest.Payload.{NaiveDate, is_bad_window}
use tmdb_mirror.Ingest.Submit.{M, ◌>>=◌, pure, query}

-- The statements on the state of the daily synchronisation: its last successful day and whether a
-- full sweep is required, and `ops.mark_catalog_full_sweep_required()`.
pub record SyncState (State : Type 0) : Type 0 where
  pub read : State → Option (Option NaiveDate × Bool) × State
  pub mark_full_sweep_required : State → Option Bool × State

abbrev pub Window : Type 0
Window = Option (NaiveDate × NaiveDate)

abbrev pub first_of : Option NaiveDate → Option NaiveDate → Option NaiveDate
first_of none other = other
first_of (some d) other = some d

abbrev pub date_or : Option NaiveDate → NaiveDate → NaiveDate
date_or none d = d
date_or (some e) d = e

module _ {State : Type 0} (sync : SyncState State) where
  -- A full sweep is required in place of a window.
  unfoldable pub no_window : M State Window
  no_window = do marked ← query sync.mark_full_sweep_required; pure none

  abbrev pub window_from : Option NaiveDate → NaiveDate → M State Window
  window_from none last = no_window
  window_from (some first) last =
      if is_bad_window (some first) (some last) then no_window else pure (some (first, last))

  unfoldable pub catalog_sync_window :
      Option NaiveDate → Option NaiveDate → NaiveDate → M State Window
  unfolding no_window
  catalog_sync_window requested_start requested_end today = do
    state ← query sync.read
    if state.1
        then pure none
        else window_from (first_of requested_start state.0) (date_or requested_end today)

  -- `daily_window` of the scheduler. Its error `()` is `database_unavailable` here, as in the worker.
  unfoldable pub sweep_today : NaiveDate → M State (NaiveDate × NaiveDate)
  sweep_today today = do marked ← query sync.mark_full_sweep_required; pure (today, today)

  abbrev pub daily_from : Option NaiveDate → NaiveDate → M State (NaiveDate × NaiveDate)
  daily_from none today = sweep_today today
  daily_from (some first) today =
      if ltb (first + 13) today then sweep_today today else pure (first, today)

  unfoldable pub daily_window : NaiveDate → M State (NaiveDate × NaiveDate)
  unfolding sweep_today
  daily_window today = do
    state ← query sync.read
    if state.1 then pure (today, today) else daily_from state.0 today

-- The statements do what they say, on a row that is there.
pub record IsSyncState {State : Type 0} (sync : SyncState State) (required : State → Bool)
    : Type 0 where
  pub reads :
      (s : State) (day : Option NaiveDate) (sweep : Bool)
      → (sync.read s).0 ≡ some (day, sweep)
      → required (sync.read s).1 ≡ sweep
  pub marks :
      (s : State) (b : Bool)
      → (sync.mark_full_sweep_required s).0 ≡ some b
      → required (sync.mark_full_sweep_required s).1 ≡ true

-- The window that was asked for, or the one since the last successful day, to the day asked for or
-- to today, if it is in order and spans at most fourteen days.
abbrev pub IsDue : Option NaiveDate → NaiveDate → NaiveDate → NaiveDate → Type 0
IsDue from until first last =
    (from ≡ some first) × (until ≡ last) × (first ≤ last) × (last ≤ first + 13)

module _ {State : Type 0} (sync : SyncState State) (required : State → Bool)
    (is : IsSyncState sync required) where
  -- No window is given only where a full sweep is required, and a window only where none is; it is
  -- then in order and spans at most fourteen days.
  abbrev pub Decides : Result JobExecutionError Window × State → Type 0
  Decides (err e, s) = Unit
  Decides (ok none, s) = required s ≡ true
  Decides (ok (some w), s) = (w.0 ≤ w.1) × (w.1 ≤ w.0 + 13) × (required s ≡ false)

-- No last successful day is ahead of the day.
abbrev pub IsPast : Option NaiveDate → NaiveDate → Type 0
IsPast none today = Unit
IsPast (some day) today = day ≤ today

-- The window that was returned, if one was, is accepted exactly if `condition` holds.
abbrev pub AcceptedIff :
    {State : Type 0} → Type 0 → Result JobExecutionError (NaiveDate × NaiveDate) × State → Type 0
AcceptedIff condition (err e, s) = Unit
AcceptedIff condition (ok w, s) = (is_bad_window (some w.0) (some w.1) ≡ false) ↔ condition

module _ {State : Type 0} (sync : SyncState State) where
  -- The window of today alone is accepted.
  sweep_today-AcceptedIff :
      (condition : Type 0) (today : NaiveDate) (s : State)
      → condition
      → AcceptedIff condition (sweep_today sync today s)
  unfolding sweep_today
  sweep_today-AcceptedIff condition today s holds =
      answered (sync.mark_full_sweep_required s).0 refl
    where
      answered :
          (o : Option Bool)
          → (sync.mark_full_sweep_required s).0 ≡ o
          → AcceptedIff condition (sweep_today sync today s)
      answered none e = rw e tt
      answered (some b) e = rw e (λ h. holds, λ c. ground arith)

  -- The window of the scheduler is one that the database and parse_job accept exactly if a full sweep
  -- is required already or the last successful day is not ahead of today.
  pub daily_window-AcceptedIff :
      (today : NaiveDate) (s : State) (day : Option NaiveDate) (sweep : Bool)
      → (sync.read s).0 ≡ some (day, sweep)
      → AcceptedIff ((sweep ≡ true) ⊎ IsPast day today) (daily_window sync today s)
  unfolding daily_window
  daily_window-AcceptedIff today s day true e = rw e (λ h. inl refl, λ c. ground arith)
  daily_window-AcceptedIff today s none false e =
      rw e (sweep_today-AcceptedIff _ today (sync.read s).1 (inr tt))
  daily_window-AcceptedIff today s (some first) false e =
      elim (Bool-cases (ltb (first + 13) today)) [
        | inl k ↦ rw (e, k) (sweep_today-AcceptedIff _ today (sync.read s).1 (inr (ground arith)))
        | inr k ↦ rw (e, k) (ground arith)
      ]
