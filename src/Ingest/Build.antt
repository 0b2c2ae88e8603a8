-- ===== src/Ingest/Build.antt =====
-- apps/tmdb-ingest/src/jobs.rs: the jobs that the metadata worker builds.
-- The printing of a date in a URL and the current time are parameters.
pub mod Read
pub mod Keys
pub mod Made
pub mod Scans
pub mod Seasons
use tmdb_mirror.Prelude.{
  ℕ, zero, suc, ◌+◌, ◌-◌, ◌*◌, ◌^◌, ◌<◌, ◌≡◌, Bool, true, false, not, ◌&&◌, ◌||◌, List, [], ◌∷◌,
  ◌++◌, map, Option, none, some, ltb, leb, ◌==◌, if◌then◌else◌, Result, ok, err, ◌>>=◌, map_err, ℤ,
  pos, negsuc, Text, codes, text_eq,
}
use tmdb_mirror.Prelude.Decimal.{show_number}
use tmdb_mirror.Domain.{MediaType, movie, tv}
use tmdb_mirror.Jobs.Error.{
  ValidationError, JobError, validation, not_found, lease_lost, rejected, capacity, database,
}
use tmdb_mirror.Jobs.Model.{
  Platform, NewJob, new_job, with_priority, with_max_attempts, with_available_at,
}
use tmdb_mirror.Jobs.Worker.{JobExecutionError, retry, dead_letter_error}
use tmdb_mirror.Ingest.Json.{Json}
use tmdb_mirror.Ingest.Payload
use tmdb_mirror.Ingest.Payload.{
  NaiveDate, RefreshScope, full, catalog_only, AdminScanMode, AdminScanPhase, AdminScanPayload,
  refresh_movie_job, refresh_tv_job, enrich_movie_job, enrich_tv_job, refresh_season_job,
  daily_export_job, configuration_job, ingest_payload_version, keyed, mode_text, phase_text,
  types_text, option_date_text,
}
use tmdb_mirror.Ingest.Payload.Reading.{scope_name, scan_mode_name, phase_name, media_type_name}

-- The key that `season_job` prints; `dedup_key` prints its own.
unfoldable pub season_job_key : ℕ → ℕ → Text
season_job_key tmdb_id season_number =
    refresh_season_job
    ++ (codes ":" ++ (show_number tmdb_id ++ (codes ":" ++ show_number season_number)))

-- The key that a scan's builder prints; `dedup_key` prints its own.
unfoldable pub scan_job_key : (NaiveDate → Text) → AdminScanPayload → Text
scan_job_key show_date r =
    Payload.admin_scan_job
    ++ (codes ":"
        ++ (mode_text r.mode
            ++ (codes ":"
                ++ (types_text r.media_types
                    ++ (codes ":"
                        ++ (phase_text r.phase
                            ++ (codes ":"
                                ++ (show_number r.cursor
                                    ++ (codes ":"
                                        ++ (show_number r.poll
                                            ++ (codes ":"
                                                ++ (option_date_text show_date r.window_start
                                                    ++ (codes ":"
                                                        ++ option_date_text show_date
                                                            r.window_end)))))))))))))

-- A second and the waits of the errors, in nanoseconds.
abbrev pub seconds : ℕ → ℕ
seconds n = n * 1000000000

abbrev pub invalid : JobExecutionError
invalid = dead_letter_error (codes "invalid_payload")

abbrev pub unavailable : JobExecutionError
unavailable = retry (codes "database_unavailable") (seconds 5)

unfoldable pub map_submission_error : JobError → JobExecutionError
map_submission_error (validation e) = invalid
map_submission_error not_found = unavailable
map_submission_error lease_lost = unavailable
map_submission_error rejected = unavailable
map_submission_error capacity = unavailable
map_submission_error database = unavailable

-- `u32::try_from` of an unsigned and of a signed number.
abbrev pub u32_of : ℕ → Option ℕ
u32_of n = if ltb n (2 ^ 32) then some n else none

abbrev pub u32_of_signed : ℤ → Result JobExecutionError ℕ
u32_of_signed (pos n) = if ltb n (2 ^ 32) then ok n else err invalid
u32_of_signed (negsuc n) = err invalid

unfoldable pub validate_refresh_tmdb_id : ℕ → Result JobExecutionError ℕ
validate_refresh_tmdb_id tmdb_id =
    if ltb tmdb_id (2 ^ 32) && not (tmdb_id == 0) then ok tmdb_id else err invalid

abbrev pub refresh_type : MediaType → Text
refresh_type movie = refresh_movie_job
refresh_type tv = refresh_tv_job

abbrev pub enrich_type : MediaType → Text
enrich_type movie = enrich_movie_job
enrich_type tv = enrich_tv_job

-- The rows of the catalog that become jobs.
pub record MissingCatalogRow : Type 0 where
  pub id : ℤ
  pub tmdb_id : ℤ
  pub media_type : Text

pub record CatalogEnrichmentRow : Type 0 where
  pub id : ℤ
  pub tmdb_id : ℤ

pub record CatalogSeasonRow : Type 0 where
  pub id : ℤ
  pub tmdb_id : ℤ
  pub season_number : ℤ

abbrev type_of_row : Text → Result JobExecutionError Text
type_of_row media_type =
    if text_eq media_type (codes "movie")
    then ok refresh_movie_job
    else if text_eq media_type (codes "tv")
    then ok refresh_tv_job
    else err invalid

module _ (p : Platform) (j : Json p.Value) where
  abbrev pub QueueJob : Type 0
  QueueJob = NewJob p.Value p.DateTime

  -- `.map_err(|_| JobExecutionError::dead_letter("invalid_payload"))`.
  abbrev pub or_invalid : Result ValidationError QueueJob → Result JobExecutionError QueueJob
  or_invalid r = map_err (λ e. invalid) r

  abbrev pub refresh_payload : ℕ → RefreshScope → p.Value
  refresh_payload tmdb_id scope = j.object (
      j.insert (codes "scope") (j.string (scope_name scope))
        (j.insert (codes "tmdb_id") (j.number tmdb_id) j.empty))

  unfoldable pub refresh_job : MediaType → ℕ → ℤ → RefreshScope → Result JobExecutionError QueueJob
  refresh_job media_type raw priority scope = do
    tmdb_id ← validate_refresh_tmdb_id raw
    or_invalid (do
      job ←
          new_job p (refresh_type media_type) ingest_payload_version (refresh_payload tmdb_id scope)
            (keyed (refresh_type media_type) tmdb_id)
      with_priority p job priority)

  -- The closure of `enqueue_missing_catalog_refresh_batch`.
  unfoldable pub missing_job : MissingCatalogRow → Result JobExecutionError QueueJob
  missing_job row = do
    tmdb_id ← u32_of_signed row.tmdb_id
    job_type ← type_of_row row.media_type
    or_invalid (
        new_job p job_type ingest_payload_version
          (j.object (j.insert (codes "tmdb_id") (j.number tmdb_id) j.empty))
          (keyed job_type tmdb_id))

  -- The closure of `enqueue_catalog_enrichment_batch`.
  unfoldable pub enrichment_job :
      MediaType → CatalogEnrichmentRow → Result JobExecutionError QueueJob
  enrichment_job media_type row = do
    tmdb_id ← u32_of_signed row.tmdb_id
    or_invalid (do
      job ←
          new_job p (enrich_type media_type) ingest_payload_version
            (refresh_payload tmdb_id catalog_only) (keyed (enrich_type media_type) tmdb_id)
      job ← with_priority p job (pos 50)
      with_max_attempts p job (pos 8))

  abbrev pub season_payload : ℕ → ℕ → p.Value
  season_payload tv_id season_number = j.object (
      j.insert (codes "scope") (j.string (scope_name catalog_only)) (
        j.insert (codes "season_number") (j.number season_number)
          (j.insert (codes "tv_id") (j.number tv_id) j.empty)))

  -- The closure of `enqueue_catalog_season_batch`.
  unfoldable pub season_job : CatalogSeasonRow → Result JobExecutionError QueueJob
  season_job row = do
    tmdb_id ← u32_of_signed row.tmdb_id
    season_number ← u32_of_signed row.season_number
    or_invalid (
        new_job p refresh_season_job ingest_payload_version (season_payload tmdb_id season_number)
          (season_job_key tmdb_id season_number))

  unfoldable pub configuration_refresh : Result JobExecutionError QueueJob
  configuration_refresh =
      or_invalid
        (new_job p configuration_job ingest_payload_version (j.object j.empty) configuration_job)

  abbrev pub export_payload : MediaType → Text → ℕ → Bool → p.Value
  export_payload media_type url offset refresh_all = j.object (
      j.insert (codes "refresh_all") (j.boolean refresh_all) (
        j.insert (codes "offset") (j.number offset) (
          j.insert (codes "url") (j.string url)
            (j.insert (codes "media_type") (j.string (media_type_name media_type)) j.empty))))

  abbrev file_prefix : MediaType → Text
  file_prefix movie = codes "movie_ids"
  file_prefix tv = codes "tv_series_ids"

  abbrev recovery_part : Bool → Text
  recovery_part true = codes ":"
  recovery_part false = codes ":recovery:"

  -- The URL of an export; `show_day` prints a date by `%m_%d_%Y`.
  unfoldable pub export_url : (NaiveDate → Text) → MediaType → NaiveDate → Text
  export_url show_day media_type day =
      codes "https://files.tmdb.org/p/exports/"
      ++ (file_prefix media_type ++ (codes "_" ++ (show_day day ++ codes ".json.gz")))

  unfoldable pub export_job :
      (NaiveDate → Text) → MediaType → NaiveDate → Bool → Result JobExecutionError QueueJob
  unfolding export_url
  export_job show_day media_type day refresh_all = or_invalid (do
    job ←
        new_job p daily_export_job ingest_payload_version
          (export_payload media_type (export_url show_day media_type day) 0 refresh_all)
          (daily_export_job
            ++ (recovery_part refresh_all
                ++ (media_type_name media_type ++ (codes ":" ++ (show_day day ++ codes ":0")))))
    job ← with_max_attempts p job (pos 100)
    with_priority p job (pos 300))

  unfoldable pub export_dedup_key : (Text → Text) → MediaType → Text → ℕ → Bool → Text
  export_dedup_key digest_text media_type url offset refresh_all =
      daily_export_job
      ++ (recovery_part refresh_all
          ++ (media_type_name media_type
              ++ (codes ":" ++ (digest_text url ++ (codes ":" ++ show_number offset)))))

  -- The job that goes on with an export, `later` seconds from now.
  unfoldable pub continuation :
      (Text → Text)
      → (ℕ → p.DateTime)
      → MediaType
      → Text
      → ℕ
      → Bool
      → Result JobExecutionError QueueJob
  continuation digest_text later media_type url offset refresh_all = or_invalid (do
    job ←
        new_job p daily_export_job ingest_payload_version
          (export_payload media_type url offset refresh_all)
          (export_dedup_key digest_text media_type url offset refresh_all)
    job ← with_max_attempts p job (pos 100)
    job ← with_priority p job (pos 300)
    with_available_at p job (later 1))

  abbrev pub date_value : Option NaiveDate → p.Value
  date_value none = j.null
  date_value (some d) = j.date d

  abbrev pub scan_payload : AdminScanPayload → p.Value
  scan_payload r = j.object (
      j.insert (codes "windowEnd") (date_value r.window_end) (
        j.insert (codes "windowStart") (date_value r.window_start) (
          j.insert (codes "poll") (j.number r.poll) (
            j.insert (codes "cursor") (j.number r.cursor) (
              j.insert (codes "phase") (j.string (phase_name r.phase)) (
                j.insert (codes "mediaTypes")
                  (j.array (map (λ t. j.string (media_type_name t)) r.media_types))
                  (j.insert (codes "mode") (j.string (scan_mode_name r.mode)) j.empty)))))))

  -- `show_date` prints a date by `{:?}`. The arguments are the fields of the payload.
  unfoldable pub admin_scan_job_with_window :
      (NaiveDate → Text) → (ℕ → p.DateTime) → AdminScanPayload → Result JobExecutionError QueueJob
  unfolding scan_job_key
  admin_scan_job_with_window show_date later r = or_invalid (do
    job ←
        new_job p Payload.admin_scan_job ingest_payload_version (scan_payload r)
          (scan_job_key show_date r)
    job ← with_max_attempts p job (pos 100)
    job ← with_priority p job (pos 150)
    with_available_at p job (later 2))

  unfoldable pub admin_scan_job :
      (NaiveDate → Text)
      → (ℕ → p.DateTime)
      → AdminScanMode
      → List MediaType
      → AdminScanPhase
      → ℕ
      → ℕ
      → Result JobExecutionError QueueJob
  unfolding admin_scan_job_with_window
  admin_scan_job show_date later mode media_types phase cursor poll =
      admin_scan_job_with_window show_date later (record {
        mode = mode;
        media_types = media_types;
        phase = phase;
        cursor = cursor;
        poll = poll;
        window_start = none;
        window_end = none;
      })
