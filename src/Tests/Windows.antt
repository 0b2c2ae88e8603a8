-- ===== src/Tests/Windows.antt =====
-- The windows of the daily synchronisation on concrete states.
use tmdb_mirror.Prelude.{◌≡◌, refl, ◌⊎◌, Bool, true, false, Option, none, some, ok}
use tmdb_mirror.Ingest.Payload.{NaiveDate}
use tmdb_mirror.Ingest.Windows.{
  SyncState, no_window, IsPast, AcceptedIff, catalog_sync_window, daily_window,
  daily_window-AcceptedIff,
}

-- The state is the row itself.
abbrev row : SyncState (Option NaiveDate × Bool)
row = record { read = λ s. (some s, s); mark_full_sweep_required = λ s. (some true, (s.0, true)) }

daily_window_example :
    AcceptedIff
      ((◌≡◌ {A = Bool} false true) ⊎ IsPast (some 20000) 20006)
      (daily_window row 20006 (some 20000, false))
daily_window_example =
    daily_window-AcceptedIff row 20006 (some 20000, false) (some 20000) false refl

-- A last successful day ahead of today gives a window that ends before it starts.
ahead : (daily_window row 20006 (some 20007, false)).0 ≡ ok (20007, 20006)
unfolding daily_window
ahead = refl

-- The worker asks for a full sweep in its place.
ahead_swept :
    catalog_sync_window row (some 20007) (some 20006) 20006 (none, false) ≡ (ok none, (none, true))
unfolding catalog_sync_window no_window
ahead_swept = refl

taken : (catalog_sync_window row none none 20006 (some 20000, false)).0 ≡ ok (some (20000, 20006))
unfolding catalog_sync_window
taken = refl
