-- ===== src/Ingest/Payload/Scan.antt =====
-- apps/tmdb-ingest/src/jobs.rs: which payloads `parse_job` accepts.
use tmdb_mirror.Prelude.{
  ℕ, ◌+◌, ◌^◌, ◌≤◌, ◌<◌, ◌≡◌, ◌≢◌, ◌↔◌, ◌⊎◌, Bool, true, false, not, ◌&&◌, ◌||◌, List, [], ◌∷◌,
  Option, none, some, ltb, ◌==◌, length, arith,
}
use tmdb_mirror.Domain.{MediaType, movie, tv}
use tmdb_mirror.Ingest.Payload.{
  NaiveDate, AdminScanMode, full_sweep, missing_only, recovery, reconcile, prune_cleanup,
  daily_sync, AdminScanPhase, start, enrichment, seasons, completion, AdminScanPayload, has_batches,
  has_repeated_pair, is_bad_window, is_half_window, is_some, is_daily_sync, is_missing_only,
  is_start, is_completion, is_batch_phase, has_completion, is_bad_scan,
}

-- No window, or one of at most fourteen days.
abbrev pub IsWindow : Option NaiveDate → Option NaiveDate → Type 0
IsWindow none none = Unit
IsWindow none (some e) = ⊥
IsWindow (some s) none = ⊥
IsWindow (some s) (some e) = (s ≤ e) × (e ≤ s + 13)

-- One media type, or both in either order.
abbrev pub IsTypes : List MediaType → Type 0
IsTypes [] = ⊥
IsTypes (a ∷ []) = Unit
IsTypes (a ∷ b ∷ []) = a ≢ b
IsTypes (a ∷ b ∷ c ∷ types) = ⊥

-- The modes whose catalog is worked off in batches.
abbrev pub IsBatchMode : AdminScanMode → Type 0
IsBatchMode mode =
    (mode ≡ full_sweep) ⊎ (mode ≡ recovery) ⊎ (mode ≡ reconcile) ⊎ (mode ≡ missing_only)

-- What each phase asks of the mode, the number of types, the cursor and the poll.
abbrev pub IsPhase : AdminScanPhase → AdminScanMode → ℕ → ℕ → ℕ → Type 0
IsPhase start mode types cursor poll = (poll ≡ 0) × ((mode ≡ missing_only) ⊎ (cursor ≡ 0))
IsPhase enrichment mode types cursor poll = IsBatchMode mode × (types ≡ 1)
IsPhase seasons mode types cursor poll = IsBatchMode mode × (types ≡ 1)
IsPhase completion mode types cursor poll = mode ≢ prune_cleanup

pub record IsScan (p : AdminScanPayload) : Type 0 where
  pub types : IsTypes p.media_types
  pub cursor : p.cursor < 2 ^ 63
  pub phase : IsPhase p.phase p.mode (length p.media_types) p.cursor p.poll
  pub window : IsWindow p.window_start p.window_end
  pub daily : (p.mode ≡ daily_sync) ⊎ (p.window_start ≡ none) × (p.window_end ≡ none)

IsTypes-iff :
    (types : List MediaType)
    → ((length types == 0) || ltb 2 (length types) || has_repeated_pair types ≡ false)
      ↔ IsTypes types
IsTypes-iff [] = ground arith
IsTypes-iff (a ∷ []) = ground arith
IsTypes-iff (movie ∷ movie ∷ []) = ground arith
IsTypes-iff (movie ∷ tv ∷ []) = ground arith
IsTypes-iff (tv ∷ movie ∷ []) = ground arith
IsTypes-iff (tv ∷ tv ∷ []) = ground arith
IsTypes-iff (a ∷ b ∷ c ∷ types) = ground arith

-- The tests on a phase, in the code's order.
abbrev bad_phase : AdminScanPhase → AdminScanMode → ℕ → ℕ → ℕ → Bool
bad_phase phase mode types cursor poll =
    (is_batch_phase phase && not (has_batches mode))
    || (is_batch_phase phase && not (types == 1))
    || (is_completion phase && not (has_completion mode))
    || (is_start phase && not (poll == 0))
    || (is_start phase && not (is_missing_only mode) && not (cursor == 0))

has_batches_iff : (mode : AdminScanMode) → (has_batches mode ≡ true) ↔ IsBatchMode mode
has_batches_iff mode = ground arith

IsPhase-iff :
    (phase : AdminScanPhase) (mode : AdminScanMode) (types cursor poll : ℕ)
    → (bad_phase phase mode types cursor poll ≡ false) ↔ IsPhase phase mode types cursor poll
IsPhase-iff start full_sweep types cursor poll = ground arith
IsPhase-iff start mode types cursor poll = ground arith
IsPhase-iff enrichment mode types cursor poll = ground arith
IsPhase-iff seasons mode types cursor poll = ground arith
IsPhase-iff completion full_sweep types cursor poll = ground arith
IsPhase-iff completion mode types cursor poll = ground arith

abbrev pub bad_window : AdminScanMode → Option NaiveDate → Option NaiveDate → Bool
bad_window mode s e =
    is_half_window s e
    || (not (is_daily_sync mode) && (is_some s || is_some e))
    || is_bad_window s e

pub IsWindow-iff :
    (mode : AdminScanMode) (s e : Option NaiveDate)
    → (bad_window mode s e ≡ false) ↔ IsWindow s e × ((mode ≡ daily_sync) ⊎ (s ≡ none) × (e ≡ none))
IsWindow-iff daily_sync none none = ground arith
IsWindow-iff daily_sync none (some e) = ground arith
IsWindow-iff daily_sync (some s) none = ground arith
IsWindow-iff daily_sync (some s) (some e) = ground arith
IsWindow-iff mode none none = ground arith
IsWindow-iff mode none (some e) = ground arith
IsWindow-iff mode (some s) none = ground arith
IsWindow-iff mode (some s) (some e) = ground arith

-- The tests of a scan's payload pass exactly the payloads with one or two different media types, a
-- cursor below 2^63, numbers and a mode that fit the phase, and no window or, for a daily sync, one of
-- at most fourteen days.
pub is_bad_scan_iff : (p : AdminScanPayload) → (is_bad_scan p ≡ false) ↔ IsScan p
unfolding is_bad_scan
is_bad_scan_iff p = (left, right)
  where
    left : is_bad_scan p ≡ false → IsScan p
    left h = record {
      types = (IsTypes-iff p.media_types).0 (ground arith);
      cursor = ground arith;
      phase = (IsPhase-iff p.phase p.mode (length p.media_types) p.cursor p.poll).0 (ground arith);
      window = ((IsWindow-iff p.mode p.window_start p.window_end).0 (ground arith)).0;
      daily = ((IsWindow-iff p.mode p.window_start p.window_end).0 (ground arith)).1;
    }

    right : IsScan p → is_bad_scan p ≡ false
    right v =
        let types = (IsTypes-iff p.media_types).1 v.types in
        let phase = (IsPhase-iff p.phase p.mode (length p.media_types) p.cursor p.poll).1 v.phase in
        let window = (IsWindow-iff p.mode p.window_start p.window_end).1 (v.window, v.daily) in
        let cursor = v.cursor in ground arith
