-- ===== src/Tests/Ingest.antt =====
-- Tests of the ingest worker, and its theorems at inputs that meet their hypotheses.
use mathlib.Core.Path.{subst}
use tmdb_mirror.Prelude.{
  All, ltb, if◌then◌else◌, Bool-cases, ℕ, ◌+◌, ◌^◌, ◌≡◌, refl, ◌↔◌, inl, inr, true, false, List, [],
  ◌∷◌, none, some, ok, err, pos, negsuc, Text, codes, text_eq, arith,
}
use tmdb_mirror.Prelude.Decimal.{show_number}
use tmdb_mirror.Domain.{movie, tv}
use tmdb_mirror.Jobs.Model.{
  NewJob, with_priority, with_max_attempts, with_available_at, new_job, validate_text,
  validate_json_object,
}
use tmdb_mirror.Ingest.Payload.{
  NaiveDate, AdminScanPayload, daily_sync, full_sweep, enrichment, completion, catalog_only,
  admin_scan, refresh_tv, parse_job, admin_scan_job, invalid_payload, is_bad_scan,
  refresh_season_job, parse_scan, parse_payload,
}
use tmdb_mirror.Jobs.Repository.{prepare_submit_batch, batch_requests}
use tmdb_mirror.Jobs.Repository.Batch.{submit_many_in_transaction}
use tmdb_mirror.Ingest.Payload.Scan.{IsScan, is_bad_scan_iff}
use tmdb_mirror.Ingest.Payload.Accepted.{parse_job-IsJob}
use tmdb_mirror.Ingest.Payload.Reading.{
  serde_reader, read_scan, scan_mode_name, media_type_name, phase_name, scope_name,
}
use tmdb_mirror.Ingest.Build.{
  season_job_key, scan_job_key, invalid, enrichment_job, refresh_job, scan_payload, season_job,
  admin_scan_job_with_window, CatalogEnrichmentRow, CatalogSeasonRow,
}
use tmdb_mirror.Ingest.Build.Made.{Carries, refresh_job-Carries}
use tmdb_mirror.Ingest.Build.Scans.{PrintsDates, admin_scan_job-Carries}
use tmdb_mirror.Ingest.Build.Seasons.{season_job-refused}
use tmdb_mirror.Ingest.Submit.{
  M, submit_ingest_child_jobs, submit_ingest_child_job, throw, submit_refresh_jobs_with_capacity,
}
use tmdb_mirror.Ingest.Submit.Whole.{IsIsolated, IsWhole, submit_refresh_jobs-IsWhole}
use tmdb_mirror.Ingest.Scan.{
  Catalog, submit_scan, phase_batch, enqueue_catalog_enrichment_batch, batch_of_rows,
  execute_catalog_scan_phase,
}
use tmdb_mirror.Ingest.Scan.Runs.{SelectsBehind, IsBehind}
use tmdb_mirror.Ingest.Scan.Next.{IsNext}
use tmdb_mirror.Ingest.Scan.Followed.{execute_catalog_scan_phase-IsNext}
use tmdb_mirror.Prelude.{trim}
use tmdb_mirror.Upstream.Client.{parse_u64}
use tmdb_mirror.Ingest.Export.{ExportFile, id_of_line}
use tmdb_mirror.Ingest.Export.Ids.{all_ids, lines}
use tmdb_mirror.Ingest.Export.Chain.{export_chain, export_chain-all}
use tmdb_mirror.Tests.Documents.{
  Doc, json, json-IsJson, documents, rows_db, transactions, job_id, is_object,
}

-- A week of changes.
abbrev week : AdminScanPayload
week = record {
  mode = daily_sync;
  media_types = tv ∷ movie ∷ [];
  phase = completion;
  cursor = 0;
  poll = 3;
  window_start = some 20000;
  window_end = some 20006;
}

abbrev sweep : AdminScanPayload
sweep = record {
  mode = full_sweep;
  media_types = tv ∷ [];
  phase = enrichment;
  cursor = 40;
  poll = 0;
  window_start = none;
  window_end = none;
}

week-IsScan : IsScan week
week-IsScan = (is_bad_scan_iff week).0 (unfold is_bad_scan in refl)

sweep-IsScan : IsScan sweep
sweep-IsScan = (is_bad_scan_iff sweep).0 (unfold is_bad_scan in refl)

is_bad_scan_example : (is_bad_scan week ≡ false) ↔ IsScan week
is_bad_scan_example = is_bad_scan_iff week

parsed_week :
    parse_job
      (serde_reader json is_object (λ url. none))
      admin_scan_job
      (pos 1)
      (scan_payload documents json week)
    ≡ ok (admin_scan week)
unfolding parse_job text_eq parse_scan parse_payload read_scan scan_mode_name media_type_name
    phase_name is_bad_scan
parsed_week = refl

parse_job_example : IsScan week
parse_job_example =
    parse_job-IsJob (serde_reader json is_object (λ url. none)) admin_scan_job (pos 1)
      (scan_payload documents json week) {job = admin_scan week} parsed_week

abbrev show_date : NaiveDate → Text
show_date d = codes "2024-01-01"

prints : PrintsDates show_date
prints = record { short = λ d. omega arith; solid = λ d. refl }

refresh_job_example :
    (job : NewJob Doc ℕ) × (refresh_job documents json tv 7 (negsuc 4) catalog_only ≡ ok job)
    × Carries documents json json-IsJson
        (λ url. none)
        show_date
        (λ url. url)
        (refresh_tv (record { tmdb_id = 7; scope = catalog_only }))
        job
refresh_job_example =
    refresh_job-Carries documents json json-IsJson (λ url. none) show_date (λ url. url) tv 7
      (negsuc 4) catalog_only (omega arith) (omega arith) refl refl

admin_scan_job_example :
    (job : NewJob Doc ℕ) × (admin_scan_job_with_window documents json show_date (λ n. 2024) week
      ≡ ok job)
    × Carries documents json json-IsJson (λ url. none) show_date (λ url. url) (admin_scan week) job
admin_scan_job_example =
    admin_scan_job-Carries documents json json-IsJson (λ url. none) show_date (λ url. url) prints
      (λ n. 2024) week week-IsScan (omega arith) refl refl

abbrev season_row : CatalogSeasonRow
season_row = record { id = pos 41; tmdb_id = pos 1399; season_number = pos 1 }

-- The job of the first season of a title.
abbrev first_season : NewJob Doc ℕ
first_season = record {
  job_type = refresh_season_job;
  payload_version = pos 1;
  payload = Doc.object (
      Doc.entry (codes "scope") (Doc.string (codes "catalog_only")) (
        Doc.entry (codes "season_number") (Doc.number 1)
          (Doc.entry (codes "tv_id") (Doc.number 1399) Doc.no_entry)));
  priority = pos 0;
  max_attempts = pos 3;
  available_at = none;
  dedup_key = codes "ingest.refresh_season:1399:1";
}

season_made : season_job documents json season_row ≡ ok first_season
unfolding season_job new_job validate_text validate_json_object season_job_key show_number
    scope_name
season_made = refl

season_job_example :
    parse_job
      (serde_reader json is_object (λ url. none))
      refresh_season_job
      (pos 1)
      first_season.payload
    ≡ err invalid_payload
season_job_example =
    season_job-refused documents json json-IsJson (λ url. none) season_row first_season season_made

isolated : IsIsolated documents rows_db transactions (λ s. s.1)
isolated = record {
  begin = λ s. refl;
  rollback = λ s. refl;
  dropped = λ s. refl;
  enabled = λ s. refl;
  admission = λ s. refl;
  submitted = λ rows s. refl;
}

submit_refresh_jobs_example :
    IsWhole documents rows_db transactions
      (λ n. job_id)
      (λ s. s.1)
      (first_season ∷ [])
      5
      (submit_refresh_jobs_with_capacity documents rows_db transactions
        (λ n. job_id)
        (first_season ∷ [])
        (codes "full")
        (9, 5)).1.1
submit_refresh_jobs_example =
    submit_refresh_jobs-IsWhole documents rows_db transactions (λ n. job_id) (λ s. s.1) isolated
      (first_season ∷ []) (codes "full") (9, 5)

-- A catalog with one title behind each cursor, and no other work.
abbrev titles : ℕ → List CatalogEnrichmentRow
titles c = if ltb (c + 1) (2 ^ 63) then record { id = pos (c + 1); tmdb_id = pos 3 } ∷ [] else []

abbrev catalog : Catalog (ℕ × ℕ)
catalog = record {
  completion_has_active_work = λ s. (some false, s);
  completion_has_unresolved_failures = λ mode s. (some false, s);
  complete_catalog_sync = λ mode day s. (some true, s);
  phase_has_active_work = λ waits s. (some false, s);
  enrichment_rows = λ skip t cursor limit s. (some (titles cursor), s);
  season_rows = λ skip cursor limit s. (some [], s);
}

titles-IsBehind : (c : ℕ) → All (λ row. IsBehind c row.id) (titles c)
titles-IsBehind c = elim (Bool-cases (ltb (c + 1) (2 ^ 63))) [
  | inl e ↦ rw e ((omega arith, ground arith), tt)
  | inr e ↦ rw e tt
]

All-some : {A : Type 0} (P : A → Type 0) (xs ys : List A) → some xs ≡ some ys → All P xs → All P ys
All-some P xs ys e h = let same : xs ≡ ys = cc in subst (All P) same h

selects : SelectsBehind catalog
selects = record {
  enrichment = λ skip t cursor limit s rows e.
      All-some (λ row. IsBehind cursor row.id) (titles cursor) rows e (titles-IsBehind cursor);
  seasons = λ skip cursor limit s rows e. All-some (λ row. IsBehind cursor row.id) [] rows e tt;
}

-- The submission of the worker, and one that refuses the states that `parse_job` does.
abbrev submission : AdminScanPayload → M (ℕ × ℕ) (Unit {0})
submission =
    submit_scan documents rows_db transactions (λ n. job_id) json catalog show_date (λ n. 2024)

abbrev strict : AdminScanPayload → M (ℕ × ℕ) (Unit {0})
strict next = if is_bad_scan next then throw invalid else submission next

agreeing :
    (next : AdminScanPayload) (s : ℕ × ℕ) → IsNext sweep next → submission next s ≡ strict next s
agreeing next s h = rw ((is_bad_scan_iff next).1 h.accepted)

execute_scan_example :
    execute_catalog_scan_phase documents rows_db transactions
      (λ n. job_id)
      json
      catalog
      submission
      20100
      sweep
      (0, 0)
    ≡ execute_catalog_scan_phase documents rows_db transactions
        (λ n. job_id)
        json
        catalog
        strict
        20100
        sweep
        (0, 0)
execute_scan_example =
    execute_catalog_scan_phase-IsNext documents rows_db transactions (λ n. job_id) json catalog
      20100 submission strict sweep sweep-IsScan (λ e. cc) selects agreeing (0, 0)

-- The batch queues the enrichment of one title, and the job of the seasons' phase.
execute_scan_rows :
    (execute_catalog_scan_phase documents rows_db transactions
      (λ n. job_id)
      json
      catalog
      submission
      20100
      sweep
      (0, 0)).1
    ≡ (0, 2)
unfolding execute_catalog_scan_phase phase_batch enqueue_catalog_enrichment_batch batch_of_rows
    enrichment_job new_job validate_text validate_json_object show_number with_priority
    with_max_attempts with_available_at submit_ingest_child_jobs submit_ingest_child_job
    submit_many_in_transaction prepare_submit_batch batch_requests submit_scan
    admin_scan_job_with_window scan_job_key
execute_scan_rows = refl

-- A file of three ids, of which the last line has no line feed.
abbrev ids_file : ExportFile
ids_file = record { bytes = codes "12\n7\n30"; opens = true; readable = λ offset. true }

export_chain_example : export_chain some ids_file 8 0 ≡ some (all_ids some (codes "12\n7\n30"))
export_chain_example = export_chain-all some ids_file refl (λ offset. refl) 8 (omega arith)

all_ids_three : all_ids some (codes "12\n7\n30") ≡ ok (12 ∷ 7 ∷ 30 ∷ [])
unfolding all_ids lines id_of_line parse_u64 trim
all_ids_three = refl
