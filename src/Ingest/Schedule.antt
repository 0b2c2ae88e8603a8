-- ===== src/Ingest/Schedule.antt =====
-- apps/tmdb-ingest/src/scheduler.rs: the schedules of the catalog's scans, and what is submitted each
-- minute. The crates croner and chrono-tz and the statements are parameters; logs are left out.
pub mod Due
use tmdb_mirror.Prelude.{
  ℕ, zero, suc, ◌+◌, Bool, true, false, not, ◌&&◌, ◌||◌, List, [], ◌∷◌, Option, none, some, Result,
  ok, err, ◌>>=◌, Text, codes, text_eq, trim, ◌==◌, if◌then◌else◌,
}
use tmdb_mirror.Jobs.Model.{is_empty}
use tmdb_mirror.Jobs.Worker.{JobExecutionError}
use tmdb_mirror.Ingest.Payload.{NaiveDate}
use tmdb_mirror.Ingest.Windows.{SyncState, daily_window}

-- What the scheduler uses of its crates: time zones, patterns, and the instants of a time zone.
pub record Clock : Type 1 where
  pub Tz : Type 0
  pub Cron : Type 0
  pub DateTime : Type 0
  pub Utc : Type 0
  pub parse_timezone : Text → Option Tz
  pub parse_pattern : Text → Option Cron
  pub is_time_matching : Cron → DateTime → Option Bool
  pub with_second : DateTime → ℕ → Option DateTime
  pub with_nanosecond : DateTime → ℕ → Option DateTime
  pub date_naive : DateTime → NaiveDate
  pub to_utc : DateTime → Utc

pub record CatalogSchedule (Cron : Type 0) : Type 0 where
  pub mode : Text
  pub expression : Text
  pub cron : Cron

pub record CatalogSchedulerConfig (Tz Cron : Type 0) : Type 0 where
  pub timezone : Tz
  pub schedules : List (CatalogSchedule Cron)

pub data SchedulerConfigError : Type 0 where
  invalid_timezone : SchedulerConfigError
  not_five_fields : Text → SchedulerConfigError
  invalid_pattern : Text → SchedulerConfigError

pub record PendingScheduleSlot (Utc : Type 0) : Type 0 where
  pub mode : Text
  pub scheduled_for : Utc
  pub window_start : Option NaiveDate
  pub window_end : Option NaiveDate

abbrev is_ascii_whitespace : ℕ → Bool
is_ascii_whitespace c = (c == 32) || (c == 9) || (c == 10) || (c == 12) || (c == 13)

-- `split_ascii_whitespace().count()`; `inside` says whether the character before belongs to a field.
unfoldable pub count_fields : Bool → Text → ℕ
count_fields inside [] = 0
count_fields inside (c ∷ s) =
    let fields = count_fields (not (is_ascii_whitespace c)) s in
    if not inside && not (is_ascii_whitespace c) then suc fields else fields

module _ (clock : Clock) where
  abbrev pub Schedules : Type 0
  Schedules = Result SchedulerConfigError (List (CatalogSchedule clock.Cron))

  abbrev pub with_pattern : Text → Text → Option clock.Cron → Schedules → Schedules
  with_pattern mode expression none more = err (invalid_pattern mode)
  with_pattern mode expression (some cron) more = more >>= λ schedules.
      ok (record { mode = mode; expression = expression; cron = cron } ∷ schedules)

  -- One round of the loop, before the rounds that follow.
  unfoldable pub add_schedule : Text → Text → Schedules → Schedules
  add_schedule mode text more =
      let expression = trim text in
      if is_empty expression
      then more
      else if not (count_fields false expression == 5)
      then err (not_five_fields mode)
      else with_pattern mode expression (clock.parse_pattern expression) more

  abbrev pub with_timezone :
      Option clock.Tz
      → Schedules
      → Result SchedulerConfigError (CatalogSchedulerConfig clock.Tz clock.Cron)
  with_timezone none schedules = err invalid_timezone
  with_timezone (some timezone) schedules =
      schedules >>= λ all. ok (record { timezone = timezone; schedules = all })

  unfoldable pub new :
      Text
      → Text
      → Text
      → Text
      → Result SchedulerConfigError (CatalogSchedulerConfig clock.Tz clock.Cron)
  unfolding add_schedule
  new timezone daily_sync missing_only reconcile = with_timezone (clock.parse_timezone timezone) (
      add_schedule (codes "daily_sync") daily_sync (
        add_schedule (codes "missing_only") missing_only
          (add_schedule (codes "reconcile") reconcile (ok []))))

  -- `.and_then(..).unwrap_or(value)`.
  abbrev pub without_nanoseconds : clock.DateTime → Option clock.DateTime → clock.DateTime
  without_nanoseconds value none = value
  without_nanoseconds value (some v) = or_value (clock.with_nanosecond v 0)
    where
      or_value : Option clock.DateTime → clock.DateTime
      or_value none = value
      or_value (some w) = w

  unfoldable pub minute_slot : clock.DateTime → clock.DateTime
  minute_slot value = without_nanoseconds value (clock.with_second value 0)

  -- The query of the pending slots, and `ops.submit_scheduled_catalog_scan`, of whose answer only the
  -- logs speak.
  pub record Submissions (State : Type 0) : Type 0 where
    pub pending : State → Option (List (PendingScheduleSlot clock.Utc)) × State
    pub submit_scheduled : Text → clock.Utc → Option NaiveDate → Option NaiveDate → State → State

  module _ {State : Type 0} (sync : SyncState State) (statements : Submissions State) where
    abbrev pub submit_window :
        Text → clock.Utc → Result JobExecutionError (NaiveDate × NaiveDate) × State → State
    submit_window mode at (err e, s) = s
    submit_window mode at (ok w, s) = statements.submit_scheduled mode at (some w.0) (some w.1) s

    unfoldable pub submit_slot : CatalogSchedule clock.Cron → clock.DateTime → State → State
    submit_slot schedule slot s =
        if text_eq schedule.mode (codes "daily_sync")
        then submit_window schedule.mode (clock.to_utc slot)
            (daily_window sync (clock.date_naive slot) s)
        else statements.submit_scheduled schedule.mode (clock.to_utc slot) none none s

    -- A schedule whose pattern matches; a pattern that fails is logged.
    abbrev pub when_matching : Option Bool → State → State → State
    when_matching none submitted s = s
    when_matching (some false) submitted s = s
    when_matching (some true) submitted s = submitted

    unfoldable pub submit_slots : List (CatalogSchedule clock.Cron) → clock.DateTime → State → State
    submit_slots [] slot s = s
    submit_slots (schedule ∷ schedules) slot s =
        submit_slots schedules slot (
          when_matching (clock.is_time_matching schedule.cron slot) (submit_slot schedule slot s) s)

    unfoldable pub resubmit : List (PendingScheduleSlot clock.Utc) → State → State
    resubmit [] s = s
    resubmit (slot ∷ slots) s = resubmit slots (
        statements.submit_scheduled slot.mode slot.scheduled_for slot.window_start slot.window_end
          s)

    abbrev pub resubmit_read : Option (List (PendingScheduleSlot clock.Utc)) × State → State
    resubmit_read (none, s) = s
    resubmit_read (some slots, s) = resubmit slots s

    unfoldable pub retry_pending_slots : State → State
    retry_pending_slots s = resubmit_read (statements.pending s)

    -- One round of `run`, at the time `now` of the configured time zone.
    unfoldable pub tick :
        CatalogSchedulerConfig clock.Tz clock.Cron → clock.DateTime → State → State
    unfolding submit_slots retry_pending_slots minute_slot
    tick config now s = submit_slots config.schedules (minute_slot now) (retry_pending_slots s)
