-- ===== src/Ingest/Scan.antt =====
-- apps/tmdb-ingest/src/jobs.rs: the phases of a catalog scan, from batch to batch.
-- The queries on the catalog and the job table are parameters.
pub mod Next
pub mod Runs
pub mod Followed
use tmdb_mirror.Prelude.{
  ℕ, ◌+◌, ◌^◌, Bool, true, false, not, ◌&&◌, ◌||◌, List, [], ◌∷◌, map, Option, none, some, length,
  take, Result, ok, err, ℤ, pos, negsuc, Text, ltb, leb, ◌==◌, if◌then◌else◌,
}
use tmdb_mirror.Domain.{MediaType, movie, tv}
use tmdb_mirror.Jobs.Model.{Platform, JobId, NewJob, SubmitOutcome, is_empty}
use tmdb_mirror.Jobs.Repository.{Database}
use tmdb_mirror.Jobs.Worker.{JobExecutionError}
use tmdb_mirror.Ingest.Json.{Json}
use tmdb_mirror.Ingest.Payload.{
  NaiveDate, AdminScanMode, full_sweep, missing_only, recovery, prune_cleanup, daily_sync,
  reconcile, AdminScanPhase, start, enrichment, seasons, completion, AdminScanPayload, has_batches,
  has_completion, is_completion,
}
use tmdb_mirror.Ingest.Payload.Reading.{scan_mode_name, media_type_name}
use tmdb_mirror.Ingest.Build.{
  CatalogEnrichmentRow, CatalogSeasonRow, invalid, enrichment_job, season_job,
  admin_scan_job_with_window,
}
use tmdb_mirror.Ingest.Submit.{
  Transactions, M, ◌>>=◌, ◌>>◌, pure, throw, lift, query, count_new, submit_ingest_child_jobs,
  submit_ingest_child_job,
}

-- The queries of a scan. `enrichment_rows` and `season_rows` select active titles and seasons behind
-- the cursor, ordered by id, up to a limit; their first argument says whether to leave out those
-- that are enriched.
pub record Catalog (State : Type 0) : Type 0 where
  pub completion_has_active_work : State → Option Bool × State
  pub completion_has_unresolved_failures : Text → State → Option Bool × State
  pub complete_catalog_sync : Text → NaiveDate → State → Option Bool × State
  pub phase_has_active_work : Bool → State → Option Bool × State
  pub enrichment_rows : Bool → Text → ℕ → ℕ → State → Option (List CatalogEnrichmentRow) × State
  pub season_rows : Bool → ℕ → ℕ → State → Option (List CatalogSeasonRow) × State

abbrev pub catalog_enrichment_batch_size : ℕ
catalog_enrichment_batch_size = 100

abbrev pub catalog_season_batch_size : ℕ
catalog_season_batch_size = 25

pub record CatalogPhaseBatch : Type 0 where
  pub queued : ℕ
  pub next_cursor : ℕ
  pub done : Bool

-- The JSON that an execution returns, by its shapes.
pub data ScanReport : Type 0 where
  waiting unresolved : AdminScanPayload → ScanReport
  completed : AdminScanPayload → NaiveDate → Bool → ScanReport
  queued : AdminScanPayload → CatalogPhaseBatch → ScanReport

-- `collect::<Result<Vec<_>, _>>()`.
abbrev pub onto :
    {A : Type 0} → A → Result JobExecutionError (List A) → Result JobExecutionError (List A)
onto b (err e) = err e
onto b (ok bs) = ok (b ∷ bs)

abbrev pub collect_first :
    {A : Type 0}
    → Result JobExecutionError A
    → Result JobExecutionError (List A)
    → Result JobExecutionError (List A)
collect_first (err e) rest = err e
collect_first (ok b) rest = onto b rest

abbrev pub collect :
    {A B : Type 0} → (A → Result JobExecutionError B) → List A → Result JobExecutionError (List B)
collect f [] = ok []
collect f (a ∷ more) = collect_first (f a) (collect f more)

abbrev pub last_id : ℕ → List ℤ → Result JobExecutionError ℕ
last_id cursor [] = ok cursor
last_id cursor (pos n ∷ []) = ok n
last_id cursor (negsuc n ∷ []) = err invalid
last_id cursor (a ∷ b ∷ ids) = last_id cursor (b ∷ ids)

-- Which rows a mode asks for.
abbrev pub skips_enriched : AdminScanMode → Result JobExecutionError Bool
skips_enriched full_sweep = ok false
skips_enriched recovery = ok true
skips_enriched reconcile = ok true
skips_enriched missing_only = ok true
skips_enriched prune_cleanup = err invalid
skips_enriched daily_sync = err invalid

abbrev pub i64_of : ℕ → Result JobExecutionError ℕ
i64_of n = if ltb n (2 ^ 63) then ok n else err invalid

unfoldable pub next_poll : ℕ → Result JobExecutionError ℕ
next_poll poll = if ltb (poll + 1) (2 ^ 32) then ok (poll + 1) else err invalid

abbrev pub is_recovery : AdminScanMode → Bool
is_recovery recovery = true
is_recovery _ = false

abbrev pub is_seasons : AdminScanPhase → Bool
is_seasons seasons = true
is_seasons _ = false

abbrev pub is_enrichment : AdminScanPhase → Bool
is_enrichment enrichment = true
is_enrichment _ = false

abbrev pub is_tv : MediaType → Bool
is_tv tv = true
is_tv movie = false

abbrev pub date_or : Option NaiveDate → NaiveDate → NaiveDate
date_or none d = d
date_or (some e) d = e

-- The state that follows a batch.
abbrev pub following : AdminScanPayload → MediaType → CatalogPhaseBatch → AdminScanPayload
following r media_type batch =
    if not batch.done
    then record r { cursor = batch.next_cursor; poll = 0 }
    else if is_enrichment r.phase && is_tv media_type
    then record {
      mode = r.mode;
      media_types = r.media_types;
      phase = seasons;
      cursor = 0;
      poll = 0;
      window_start = none;
      window_end = none;
    }
    else record r { phase = completion; cursor = 0; poll = 0 }

module _ (p : Platform) (db : Database p.Value p.DateTime) (tx : Transactions db.State)
    (new_id : ℕ → JobId) (j : Json p.Value) (cat : Catalog db.State) where
  -- The batch after its jobs are submitted, from the ids of its rows.
  unfoldable pub submitted_batch :
      ℕ → List ℤ → Bool → List SubmitOutcome → M db.State CatalogPhaseBatch
  submitted_batch cursor ids done outcomes = do
    next_cursor ← lift (last_id cursor ids)
    pure (record { queued = count_new outcomes; next_cursor = next_cursor; done = done })

  -- What both batches do with their rows, of which one more than `size` was asked for.
  unfoldable pub batch_of_rows :
      {Row : Type 0}
      → (Row → Result JobExecutionError (NewJob p.Value p.DateTime))
      → (Row → ℤ)
      → ℕ
      → ℕ
      → List Row
      → M db.State CatalogPhaseBatch
  unfolding submitted_batch
  batch_of_rows job_of id_of size cursor rows = do
    jobs ← lift (collect job_of (take size rows))
    outcomes ← submit_ingest_child_jobs p db tx new_id jobs
    submitted_batch cursor (map id_of (take size rows)) (leb (length rows) size) outcomes

  unfoldable pub enqueue_catalog_enrichment_batch :
      AdminScanMode → MediaType → ℕ → M db.State CatalogPhaseBatch
  enqueue_catalog_enrichment_batch mode media_type cursor = do
    after ← lift (i64_of cursor)
    skip ← lift (skips_enriched mode)
    rows ← query (cat.enrichment_rows skip (media_type_name media_type) after 101)
    batch_of_rows (enrichment_job p j media_type) (λ row. row.id) catalog_enrichment_batch_size
        cursor rows

  unfoldable pub enqueue_catalog_season_batch : AdminScanMode → ℕ → M db.State CatalogPhaseBatch
  enqueue_catalog_season_batch mode cursor = do
    after ← lift (i64_of cursor)
    skip ← lift (skips_enriched mode)
    rows ← query (cat.season_rows skip after 26)
    batch_of_rows (season_job p j) (λ row. row.id) catalog_season_batch_size cursor rows

  unfoldable pub phase_batch : AdminScanPayload → MediaType → M db.State CatalogPhaseBatch
  phase_batch r media_type =
      if is_enrichment r.phase
      then enqueue_catalog_enrichment_batch r.mode media_type r.cursor
      else if is_seasons r.phase && is_tv media_type
      then enqueue_catalog_season_batch r.mode r.cursor
      else throw invalid

  -- The end of a scan without active work, on the day `today`.
  unfoldable pub finish_scan : NaiveDate → AdminScanPayload → M db.State ScanReport
  finish_scan today r = do
    failed ← query (cat.completion_has_unresolved_failures (scan_mode_name r.mode))
    if failed then pure (unresolved r) else do
      done ←
          if is_recovery r.mode
          then pure true
          else query
              (cat.complete_catalog_sync (scan_mode_name r.mode) (date_or r.window_end today))
      pure (completed r (date_or r.window_end today) done)

  -- `submit_child` builds and submits the job of a state of the scan, and `today` is the day.
  module _ (submit_child : AdminScanPayload → M db.State (Unit {0})) (today : NaiveDate) where
    unfoldable pub wait : AdminScanPayload → M db.State ScanReport
    wait r = do
      poll ← lift (next_poll r.poll)
      submit_child (record r { poll = poll })
      pure (waiting r)

    unfoldable pub completion_phase : AdminScanPayload → M db.State ScanReport
    unfolding wait finish_scan
    completion_phase r = if not (has_completion r.mode) then throw invalid else do
      active ← query cat.completion_has_active_work
      if active then wait r else finish_scan today r

    -- `media_types[0]`; the list is not empty here.
    abbrev pub run_batch : AdminScanPayload → List MediaType → M db.State ScanReport
    run_batch r [] = throw invalid
    run_batch r (media_type ∷ types) = do
      batch ← phase_batch r media_type
      submit_child (following r media_type batch)
      pure (queued r batch)

    unfoldable pub batch_phase : AdminScanPayload → M db.State ScanReport
    unfolding wait
    batch_phase r =
        if not (has_batches r.mode) || not (length r.media_types == 1) then throw invalid else do
          active ← query (cat.phase_has_active_work (is_seasons r.phase))
          if active then wait r else run_batch r r.media_types

    unfoldable pub execute_catalog_scan_phase : AdminScanPayload → M db.State ScanReport
    unfolding completion_phase batch_phase
    execute_catalog_scan_phase r =
        if is_completion r.phase then completion_phase r else batch_phase r

  -- The submission that the worker makes.
  unfoldable pub submit_scan :
      (NaiveDate → Text) → (ℕ → p.DateTime) → AdminScanPayload → M db.State (Unit {0})
  submit_scan show_date later r = do
    job ← lift (admin_scan_job_with_window p j show_date later r)
    outcome ← submit_ingest_child_job p db tx new_id job
    pure tt
