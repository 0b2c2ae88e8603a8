-- ===== src/Ingest/Schedule/Due.antt =====
-- apps/tmdb-ingest/src/scheduler.rs: what the scheduler submits for the current minute.
use tmdb_mirror.Prelude.{
  ◌+◌, ◌≤◌, ◌≡◌, refl, ap, ◌∙◌, ◌⊎◌, inl, inr, Bool, true, false, List, [], ◌∷◌, All, Option, none,
  some, Result, ok, err, Text, codes, text_eq, ltb, Bool-cases, arith,
}
use tmdb_mirror.Jobs.Worker.{JobExecutionError}
use tmdb_mirror.Ingest.Payload.{NaiveDate}
use tmdb_mirror.Ingest.Windows.{SyncState, daily_window, sweep_today}
use tmdb_mirror.Ingest.Schedule.{
  Clock, CatalogSchedule, Submissions, submit_slot, submit_window, submit_slots, when_matching,
}

-- A window that was returned ends today, and starts at most thirteen days before.
abbrev EndsToday :
    {State : Type 0} → NaiveDate → Result JobExecutionError (NaiveDate × NaiveDate) × State → Type 0
EndsToday today (err e, s) = Unit
EndsToday today (ok w, s) = (w.1 ≡ today) × (today ≤ w.0 + 13)

module _ {State : Type 0} (sync : SyncState State) (today : NaiveDate) where
  sweep_today-EndsToday : (s : State) → EndsToday today (sweep_today sync today s)
  unfolding sweep_today
  sweep_today-EndsToday s = answered (sync.mark_full_sweep_required s).0 refl
    where
      answered :
          (o : Option Bool)
          → (sync.mark_full_sweep_required s).0 ≡ o
          → EndsToday today (sweep_today sync today s)
      answered none e = rw e tt
      answered (some b) e = rw e (refl, omega arith)

  daily_window-EndsToday : (s : State) → EndsToday today (daily_window sync today s)
  unfolding daily_window
  daily_window-EndsToday s = answered (sync.read s).0 refl
    where
      answered :
          (o : Option (Option NaiveDate × Bool))
          → (sync.read s).0 ≡ o
          → EndsToday today (daily_window sync today s)
      answered none e = rw e tt
      answered (some (day, true)) e = rw e (refl, omega arith)
      answered (some (none, false)) e = rw e (sweep_today-EndsToday (sync.read s).1)
      answered (some (some first, false)) e = elim (Bool-cases (ltb (first + 13) today)) [
        | inl k ↦ rw (e, k) (sweep_today-EndsToday (sync.read s).1)
        | inr k ↦ rw (e, k) (refl, ground arith)
      ]

module _ (clock : Clock) {State : Type 0} (sync : SyncState State) (slot : clock.DateTime) where
  -- The windows of the modes: none, or for the daily synchronisation one of at most fourteen days that
  -- ends on the day of the slot.
  abbrev pub IsWindowOf : Text → Option NaiveDate → Option NaiveDate → Type 0
  IsWindowOf mode start last =
      ((text_eq mode (codes "daily_sync") ≡ false) × (start ≡ none) × (last ≡ none))
      ⊎ ((text_eq mode (codes "daily_sync") ≡ true)
          × ((first : NaiveDate) × (start ≡ some first)
              × (last ≡ some (clock.date_naive slot))
              × (clock.date_naive slot ≤ first + 13)))

  module _ (a b : Submissions clock State) where
    -- The statements do the same for the schedule at the slot, with any window of its mode.
    abbrev pub Agrees : CatalogSchedule clock.Cron → Type 0
    Agrees schedule =
        clock.is_time_matching schedule.cron slot ≡ some true
        → (start last : Option NaiveDate) (s : State) → IsWindowOf schedule.mode start last
        → a.submit_scheduled schedule.mode (clock.to_utc slot) start last s
          ≡ b.submit_scheduled schedule.mode (clock.to_utc slot) start last s

    submit_window-same :
        (mode : Text) (r : Result JobExecutionError (NaiveDate × NaiveDate) × State)
        → EndsToday (clock.date_naive slot) r
        → text_eq mode (codes "daily_sync") ≡ true
        → ((start last : Option NaiveDate) (s : State)
            → IsWindowOf mode start last
            → a.submit_scheduled mode (clock.to_utc slot) start last s
              ≡ b.submit_scheduled mode (clock.to_utc slot) start last s)
        → submit_window clock sync a mode (clock.to_utc slot) r
          ≡ submit_window clock sync b mode (clock.to_utc slot) r
    submit_window-same mode (err e, s) h daily agrees = refl
    submit_window-same mode (ok w, s) h daily agrees =
        agrees (some w.0) (some w.1) s (inr (daily, (w.0, refl, ap some h.0, h.1)))

    submit_slot-same :
        (schedule : CatalogSchedule clock.Cron) (s : State)
        → Agrees schedule
        → clock.is_time_matching schedule.cron slot ≡ some true
        → submit_slot clock sync a schedule slot s ≡ submit_slot clock sync b schedule slot s
    unfolding submit_slot
    submit_slot-same schedule s agrees due =
        elim (Bool-cases (text_eq schedule.mode (codes "daily_sync"))) [
          | inl e ↦ rw e (
              submit_window-same schedule.mode (daily_window sync (clock.date_naive slot) s)
                (daily_window-EndsToday sync (clock.date_naive slot) s) e (agrees due))
          | inr e ↦ rw e (agrees due none none s (inl (e, refl, refl)))
        ]

    when_matching-same :
        (schedule : CatalogSchedule clock.Cron) (o : Option Bool) (s : State)
        → clock.is_time_matching schedule.cron slot ≡ o
        → Agrees schedule
        → when_matching clock sync a o (submit_slot clock sync a schedule slot s) s
          ≡ when_matching clock sync b o (submit_slot clock sync b schedule slot s) s
    when_matching-same schedule none s e agrees = refl
    when_matching-same schedule (some false) s e agrees = refl
    when_matching-same schedule (some true) s e agrees = submit_slot-same schedule s agrees e

    -- For the current slot the scheduler calls the submission only for schedules whose pattern matches,
    -- with the instant of the slot, and with no window, or for the daily synchronisation with one that
    -- ends on the slot's day and starts at most thirteen days before: two submissions that agree on such calls make no difference.
    pub submit_slots-IsWindowOf :
        (schedules : List (CatalogSchedule clock.Cron)) (s : State)
        → All Agrees schedules
        → submit_slots clock sync a schedules slot s ≡ submit_slots clock sync b schedules slot s
    unfolding submit_slots
    submit_slots-IsWindowOf [] s agrees = refl
    submit_slots-IsWindowOf (schedule ∷ schedules) s agrees =
        submit_slots-IsWindowOf schedules _ agrees.1
        ∙ ap (submit_slots clock sync b schedules slot) (
            when_matching-same schedule (clock.is_time_matching schedule.cron slot) s refl agrees.0)
