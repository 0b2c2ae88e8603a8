-- ===== src/Ingest/Export.antt =====
-- apps/tmdb-ingest/src/jobs.rs: a daily export is worked off in batches of the ids of its file.
-- A file is its bytes, with the offsets at which a read fails; the decoding of UTF-8 is a parameter.
pub mod Ids
pub mod Chain
pub mod Queue
use tmdb_mirror.Prelude.{
  ℕ, zero, suc, ◌+◌, ◌<◌, Bool, true, false, not, ◌&&◌, ◌||◌, List, [], ◌∷◌, ◌++◌, map, Option,
  none, some, length, take, drop, any, Result, ok, err, ◌>>=◌, ℤ, pos, Text, codes, trim, ltb, leb,
  ◌==◌, if◌then◌else◌,
}
use tmdb_mirror.Domain.{MediaType, media_type_text}
use tmdb_mirror.Jobs.Model.{Platform, JobId, NewJob, is_empty}
use tmdb_mirror.Jobs.Repository.{Database}
use tmdb_mirror.Jobs.Worker.{JobExecutionError, retry}
use tmdb_mirror.Upstream.Client.{parse_u64}
use tmdb_mirror.Upstream.Export.{split_line}
use tmdb_mirror.Ingest.Json.{Json}
use tmdb_mirror.Ingest.Payload.{
  NaiveDate, RefreshScope, catalog_only, full_sweep, enrichment, AdminScanPayload,
}
use tmdb_mirror.Ingest.Build.{
  invalid, seconds, refresh_job, validate_refresh_tmdb_id, continuation, admin_scan_job,
}
use tmdb_mirror.Ingest.Submit
use tmdb_mirror.Ingest.Submit.{
  Transactions, M, pure, lift, query, after, submit_ingest_child_job,
  submit_refresh_jobs_with_capacity,
}
use tmdb_mirror.Ingest.Scan.{collect}

abbrev pub daily_export_batch_size : ℕ
daily_export_batch_size = 500

abbrev pub storage : JobExecutionError
storage = retry (codes "export_storage") (seconds 30)

-- `opens` says whether the file opens and tells its length; `readable` whether a read succeeds at
-- an offset.
pub record ExportFile : Type 0 where
  pub bytes : List ℕ
  pub opens : Bool
  pub readable : ℕ → Bool

pub record ExportIdBatch : Type 0 where
  pub ids : List ℕ
  pub next_offset : ℕ
  pub finished : Bool

pub record ExportQueueSummary : Type 0 where
  pub records : ℕ
  pub detail_refresh_candidates : ℕ
  pub continued : Bool
  pub next_offset : Option ℕ

-- What a loop has read, what is left of the file, and the offset of that.
pub record Reading : Type 0 where
  pub ids : List ℕ
  pub rest : List ℕ
  pub offset : ℕ

-- `.ok().filter(|id| *id > 0).ok_or_else(..)`.
abbrev pub positive : Option ℕ → Result JobExecutionError ℕ
positive none = err invalid
positive (some n) = if n == 0 then err invalid else ok n

module _ (decode : List ℕ → Option Text) where
  abbrev pub id_of_text : Option Text → Result JobExecutionError ℕ
  id_of_text none = err storage
  id_of_text (some line) = positive (parse_u64 (trim line))

  -- A line of bytes; `read_line` fails if it is no UTF-8.
  unfoldable pub id_of_line : List ℕ → Result JobExecutionError ℕ
  id_of_line line = id_of_text (decode line)

  abbrev pub prepend : ℕ → Reading → Reading
  prepend id r = record r { ids = id ∷ r.ids }

  -- The loop of a batch, by the ids that it may still read.
  unfoldable pub read_ids : (ℕ → Bool) → ℕ → List ℕ → ℕ → Result JobExecutionError Reading
  read_ids readable zero rest offset = ok (record { ids = []; rest = rest; offset = offset })
  read_ids readable (suc n) [] offset =
      if readable offset then ok (record { ids = []; rest = []; offset = offset }) else err storage
  read_ids readable (suc n) (b ∷ rest) offset =
      let (line, left, found) = split_line (b ∷ rest) in
      let more = read_ids readable n left (offset + length line) in
      if readable offset
      then (id_of_line line >>= λ id. more >>= λ r. ok (prepend id r))
      else err storage

  -- The end of a batch: `stream_position` and `fill_buf`.
  abbrev pub batch_of : (ℕ → Bool) → Reading → Result JobExecutionError ExportIdBatch
  batch_of readable r =
      if readable r.offset
      then ok (record { ids = r.ids; next_offset = r.offset; finished = is_empty r.rest })
      else err storage

  unfoldable pub read_export_id_batch : ExportFile → ℕ → Result JobExecutionError ExportIdBatch
  unfolding read_ids
  read_export_id_batch file offset =
      if not file.opens
      then err storage
      else if ltb (length file.bytes) offset
      then err invalid
      else read_ids file.readable daily_export_batch_size (drop offset file.bytes) offset
        >>= batch_of file.readable

-- `chunks(500)`, with more fuel than elements.
unfoldable pub chunks : ℕ → List ℕ → List (List ℕ)
chunks zero ids = []
chunks (suc fuel) [] = []
chunks (suc fuel) (id ∷ ids) = take 500 (id ∷ ids) ∷ chunks fuel (drop 500 (id ∷ ids))

-- `seen.insert(id) && !catalogued_ids.contains(&id)` for each id, with the ids seen so far.
unfoldable pub missing_of : List ℕ → List ℕ → List ℕ → List ℕ
missing_of catalogued seen [] = []
missing_of catalogued seen (id ∷ ids) =
    let rest = missing_of catalogued (id ∷ seen) ids in
    if not (any (λ n. n == id) seen) && not (any (λ n. n == id) catalogued) then id ∷ rest else rest
