-- ===== src/Ingest/Export/Queue.antt =====
-- apps/tmdb-ingest/src/jobs.rs: the jobs that a batch of a daily export queues.
use tmdb_mirror.Prelude.{
  ℕ, suc, Bool, not, List, [], ◌∷◌, Option, none, some, length, ℤ, pos, Text, codes, if◌then◌else◌,
}
use tmdb_mirror.Domain.{MediaType}
use tmdb_mirror.Jobs.Model.{Platform, JobId}
use tmdb_mirror.Jobs.Repository.{Database}
use tmdb_mirror.Upstream.Export.{saturating_add}
use tmdb_mirror.Ingest.Json.{Json}
use tmdb_mirror.Ingest.Payload.{NaiveDate, RefreshScope, catalog_only, full_sweep, enrichment}
use tmdb_mirror.Ingest.Build.{refresh_job, validate_refresh_tmdb_id, continuation, admin_scan_job}
use tmdb_mirror.Ingest.Submit.{
  Transactions, M, ◌>>=◌, ◌>>◌, pure, lift, query, submit_ingest_child_job,
  submit_refresh_jobs_with_capacity,
}
use tmdb_mirror.Ingest.Scan.{collect}
use tmdb_mirror.Ingest.Export.{
  ExportFile, ExportIdBatch, ExportQueueSummary, read_export_id_batch, chunks, missing_of,
}

module _ (p : Platform) (db : Database p.Value p.DateTime) (tx : Transactions db.State)
    (new_id : ℕ → JobId) (j : Json p.Value) where
  unfoldable pub enqueue_chunks : MediaType → ℤ → RefreshScope → Text → List (List ℕ) → M db.State ℕ
  enqueue_chunks media_type priority scope failure_code [] = pure 0
  enqueue_chunks media_type priority scope failure_code (ids ∷ more) = do
    jobs ← lift (collect (λ id. refresh_job p j media_type id priority scope) ids)
    submitted ← submit_refresh_jobs_with_capacity p db tx new_id jobs failure_code
    others ← enqueue_chunks media_type priority scope failure_code more
    pure (saturating_add submitted others)

  unfoldable pub enqueue_refresh_jobs_with_priority :
      MediaType → List ℕ → ℤ → RefreshScope → Text → M db.State ℕ
  unfolding enqueue_chunks
  enqueue_refresh_jobs_with_priority media_type ids priority scope failure_code =
      enqueue_chunks media_type priority scope failure_code (chunks (suc (length ids)) ids)

  -- `catalogued` selects, among the ids, those whose titles need no refresh.
  module _ (catalogued : MediaType → List ℕ → db.State → Option (List ℕ) × db.State) where
    unfoldable pub enqueue_missing_refresh_jobs : MediaType → List ℕ → Text → M db.State ℕ
    unfolding enqueue_refresh_jobs_with_priority
    enqueue_missing_refresh_jobs media_type ids failure_code = do
      validated ← lift (collect validate_refresh_tmdb_id ids)
      known ← query (catalogued media_type validated)
      enqueue_refresh_jobs_with_priority media_type (missing_of known [] validated) (pos 200)
          catalog_only failure_code

    module _ (decode : List ℕ → Option Text) (show_date : NaiveDate → Text)
        (digest_text : Text → Text) (later : ℕ → p.DateTime) where
      -- The job that follows the batch: the next batch, or the enrichment of what a full sweep has
      -- loaded.
      unfoldable pub queue_next : MediaType → Text → Bool → ExportIdBatch → M db.State (Unit {0})
      queue_next media_type url refresh_all batch =
          if not batch.finished
          then (do
            job ←
                lift
                  (continuation p j digest_text later media_type url batch.next_offset refresh_all)
            outcome ← submit_ingest_child_job p db tx new_id job
            pure tt)
          else if refresh_all
          then (do
            job ←
                lift
                  (admin_scan_job p j show_date later full_sweep (media_type ∷ []) enrichment 0 0)
            outcome ← submit_ingest_child_job p db tx new_id job
            pure tt)
          else pure tt

      unfoldable pub enqueue_daily_export_refresh_jobs :
          MediaType → ExportFile → Text → ℕ → Bool → M db.State ExportQueueSummary
      unfolding queue_next
      enqueue_daily_export_refresh_jobs media_type file url offset refresh_all = do
        batch ← lift (read_export_id_batch decode file offset)
        candidates ←
            if refresh_all
            then enqueue_refresh_jobs_with_priority media_type batch.ids (pos 200) catalog_only
                (codes "export_queue_incomplete")
            else enqueue_missing_refresh_jobs media_type batch.ids (codes "export_queue_incomplete")
        queue_next media_type url refresh_all batch
        pure (record {
          records = length batch.ids;
          detail_refresh_candidates = candidates;
          continued = not batch.finished;
          next_offset = if not batch.finished then some batch.next_offset else none;
        })
