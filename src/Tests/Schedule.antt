-- ===== src/Tests/Schedule.antt =====
-- The schedules of the catalog's scans on a clock of minutes.
use tmdb_mirror.Prelude.{
  ℕ, suc, ◌≡◌, refl, inl, inr, Bool, true, false, List, [], ◌∷◌, Option, none, some, ok, err, Text,
  codes, text_eq, if◌then◌else◌, trim,
}
use tmdb_mirror.Ingest.Payload.{NaiveDate}
use tmdb_mirror.Ingest.Windows.{SyncState, daily_window}
use tmdb_mirror.Ingest.Schedule.{
  Clock, CatalogSchedule, PendingScheduleSlot, Submissions, not_five_fields, count_fields,
  add_schedule, new, minute_slot, submit_slot, submit_slots, resubmit, retry_pending_slots, tick,
}
use tmdb_mirror.Ingest.Schedule.Due.{Agrees, submit_slots-IsWindowOf}

-- Instants are days, and each pattern matches on each of them.
abbrev clock : Clock
clock = record {
  Tz = Unit {0};
  Cron = Unit {0};
  DateTime = ℕ;
  Utc = ℕ;
  parse_timezone = λ s. some tt;
  parse_pattern = λ s. some tt;
  is_time_matching = λ c t. some true;
  with_second = λ t n. some t;
  with_nanosecond = λ t n. some t;
  date_naive = λ t. t;
  to_utc = λ t. t;
}

abbrev daily : CatalogSchedule (Unit {0})
daily = record { mode = codes "daily_sync"; expression = codes "0 * * * *"; cron = tt }

abbrev missing : CatalogSchedule (Unit {0})
missing = record { mode = codes "missing_only"; expression = codes "0 3 * * *"; cron = tt }

configured :
    new clock (codes "UTC") (codes " 0 * * * * ") (codes "0 3 * * *") (codes "  ")
    ≡ ok (record { timezone = tt; schedules = daily ∷ missing ∷ [] })
unfolding new add_schedule count_fields trim
configured = refl

six_fields :
    new clock (codes "UTC") [] (codes "0 0 3 * * *") []
    ≡ err (not_five_fields (codes "missing_only"))
unfolding new add_schedule count_fields trim
six_fields = refl

-- The state is the last successful day, and how many submissions there were.
abbrev sync : SyncState (NaiveDate × ℕ)
sync = record {
  read = λ s. (some (some s.0, false), s);
  mark_full_sweep_required = λ s. (some true, s);
}

abbrev pending_slot : PendingScheduleSlot ℕ
pending_slot = record {
  mode = codes "reconcile";
  scheduled_for = 20001;
  window_start = none;
  window_end = none;
}

abbrev pending : NaiveDate × ℕ → Option (List (PendingScheduleSlot ℕ)) × (NaiveDate × ℕ)
pending s = (some (pending_slot ∷ []), s)

abbrev counted : Submissions clock (NaiveDate × ℕ)
counted = record { pending = pending; submit_scheduled = λ mode at start last s. (s.0, suc s.1) }

-- It takes no window but for the daily synchronisation.
abbrev takes : Text → Option NaiveDate → Bool
takes mode none = true
takes mode (some d) = text_eq mode (codes "daily_sync")

abbrev strict : Submissions clock (NaiveDate × ℕ)
strict = record {
  pending = pending;
  submit_scheduled = λ mode at start last s. if takes mode start then (s.0, suc s.1) else s;
}

ticked :
    tick clock sync counted
      (record { timezone = tt; schedules = daily ∷ missing ∷ [] })
      20006
      (20000, 0)
    ≡ (20000, 3)
unfolding tick submit_slots submit_slot retry_pending_slots resubmit minute_slot daily_window
    text_eq
ticked = refl

daily-Agrees : Agrees clock sync 20006 counted strict daily
unfolding text_eq
daily-Agrees due none last s h = refl
daily-Agrees due (some d) last s h = refl

missing-Agrees : Agrees clock sync 20006 counted strict missing
unfolding text_eq
missing-Agrees due start last s (inl h) = rw h.1 refl
missing-Agrees due start last s (inr h) = cc

submit_slots_example :
    submit_slots clock sync counted (daily ∷ missing ∷ []) 20006 (20000, 0)
    ≡ submit_slots clock sync strict (daily ∷ missing ∷ []) 20006 (20000, 0)
submit_slots_example =
    submit_slots-IsWindowOf clock sync 20006 counted strict (daily ∷ missing ∷ []) (20000, 0)
      (daily-Agrees, (missing-Agrees, tt))
