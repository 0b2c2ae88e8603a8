-- ===== src/Ingest/Payload/Reading.antt =====
-- apps/tmdb-ingest/src/jobs.rs: the readers that serde derives for the payload types, from their
-- attributes, over the parameter `Json`.
use tmdb_mirror.Prelude.{
  ◌&&◌, Bool, false, List, [], ◌∷◌, Option, none, some, if◌then◌else◌, Text, codes, text_eq,
}
use tmdb_mirror.Prelude.Url.{Url}
use tmdb_mirror.Jobs.Model.{is_empty}
use tmdb_mirror.Domain.{MediaType, movie, tv}
use tmdb_mirror.Ingest.Json.{Json, ◌>>=◌, ◌>>◌, only, required, defaulted, nullable, read_all}
use tmdb_mirror.Ingest.Payload.{
  RefreshScope, full, catalog_only, AdminScanMode, full_sweep, missing_only, recovery,
  prune_cleanup, daily_sync, reconcile, AdminScanPhase, start, enrichment, seasons, completion,
  RefreshPayload, RefreshSeasonPayload, ChangesPayload, DailyExportPayload, TrendingPayload,
  AdminScanPayload, Reader,
}

-- `rename_all = "snake_case"`, read and written.
unfoldable pub scope_name : RefreshScope → Text
scope_name full = codes "full"
scope_name catalog_only = codes "catalog_only"

unfoldable pub scan_mode_name : AdminScanMode → Text
scan_mode_name full_sweep = codes "full_sweep"
scan_mode_name missing_only = codes "missing_only"
scan_mode_name recovery = codes "recovery"
scan_mode_name prune_cleanup = codes "prune_cleanup"
scan_mode_name daily_sync = codes "daily_sync"
scan_mode_name reconcile = codes "reconcile"

unfoldable pub phase_name : AdminScanPhase → Text
phase_name start = codes "start"
phase_name enrichment = codes "enrichment"
phase_name seasons = codes "seasons"
phase_name completion = codes "completion"

unfoldable pub media_type_name : MediaType → Text
media_type_name movie = codes "movie"
media_type_name tv = codes "tv"

-- The value of a list whose name is the text.
abbrev pub named {ℓ} : {A : Type ℓ} → (A → Text) → List A → Text → Option A
named name [] s = none
named name (a ∷ more) s = if text_eq s (name a) then some a else named name more s

module _ {Value : Type 0} (j : Json Value) where
  abbrev pub read_scope : Value → Option RefreshScope
  read_scope v = j.variant v >>= named scope_name (full ∷ catalog_only ∷ [])

  abbrev pub read_mode : Value → Option AdminScanMode
  read_mode v =
      j.variant v
      >>= named scan_mode_name
          (full_sweep ∷ missing_only ∷ recovery ∷ prune_cleanup ∷ daily_sync ∷ reconcile ∷ [])

  abbrev pub read_phase : Value → Option AdminScanPhase
  read_phase v = j.variant v >>= named phase_name (start ∷ enrichment ∷ seasons ∷ completion ∷ [])

  abbrev pub read_media_type : Value → Option MediaType
  read_media_type v = j.variant v >>= named media_type_name (movie ∷ tv ∷ [])

  abbrev pub read_media_types : Value → Option (List MediaType)
  read_media_types v = j.read_array v >>= read_all read_media_type

  unfoldable pub read_refresh : Value → Option RefreshPayload
  read_refresh v = do
    only j (codes "tmdb_id" ∷ codes "scope" ∷ []) v
    tmdb_id ← required j (codes "tmdb_id") j.read_u32 v
    scope ← defaulted j full (codes "scope") read_scope v
    some (record { tmdb_id = tmdb_id; scope = scope })

  unfoldable pub read_season : Value → Option RefreshSeasonPayload
  read_season v = do
    only j (codes "tv_id" ∷ codes "season_number" ∷ []) v
    tv_id ← required j (codes "tv_id") j.read_u32 v
    season_number ← required j (codes "season_number") j.read_u32 v
    some (record { tv_id = tv_id; season_number = season_number })

  unfoldable pub read_changes : Value → Option ChangesPayload
  read_changes v = do
    only j (codes "media_type" ∷ codes "page" ∷ codes "start_date" ∷ codes "end_date" ∷ []) v
    media_type ← required j (codes "media_type") read_media_type v
    page ← required j (codes "page") j.read_u32 v
    start_date ← defaulted j none (codes "start_date") (nullable j j.read_date) v
    end_date ← defaulted j none (codes "end_date") (nullable j j.read_date) v
    some (record {
      media_type = media_type;
      page = page;
      start_date = start_date;
      end_date = end_date;
    })

  unfoldable pub read_export : Value → Option DailyExportPayload
  read_export v = do
    only j (codes "media_type" ∷ codes "url" ∷ codes "offset" ∷ codes "refresh_all" ∷ []) v
    media_type ← required j (codes "media_type") read_media_type v
    url ← required j (codes "url") j.read_string v
    offset ← defaulted j 0 (codes "offset") j.read_u64 v
    refresh_all ← defaulted j false (codes "refresh_all") j.read_bool v
    some (record { media_type = media_type; url = url; offset = offset; refresh_all = refresh_all })

  unfoldable pub read_trending : Value → Option TrendingPayload
  read_trending v = do
    only j (codes "media_type" ∷ codes "trend_window" ∷ []) v
    media_type ← required j (codes "media_type") read_media_type v
    trend_window ← required j (codes "trend_window") j.read_string v
    some (record { media_type = media_type; trend_window = trend_window })

  unfoldable pub read_scan : Value → Option AdminScanPayload
  read_scan v = do
    only j
        (codes "mode"
          ∷ codes "mediaTypes"
          ∷ codes "phase"
          ∷ codes "cursor"
          ∷ codes "poll"
          ∷ codes "windowStart"
          ∷ codes "windowEnd"
          ∷ [])
        v
    mode ← required j (codes "mode") read_mode v
    media_types ← required j (codes "mediaTypes") read_media_types v
    phase ← defaulted j start (codes "phase") read_phase v
    cursor ← defaulted j 0 (codes "cursor") j.read_u64 v
    poll ← defaulted j 0 (codes "poll") j.read_u32 v
    window_start ← defaulted j none (codes "windowStart") (nullable j j.read_date) v
    window_end ← defaulted j none (codes "windowEnd") (nullable j j.read_date) v
    some (record {
      mode = mode;
      media_types = media_types;
      phase = phase;
      cursor = cursor;
      poll = poll;
      window_start = window_start;
      window_end = window_end;
    })

  -- The readers that `parse_job` uses, with `Value::is_object` and the url crate given; `payload == &json!({})` asks for an object
  -- without entries.
  abbrev pub serde_reader : (Value → Bool) → (Text → Option Url) → Reader Value
  serde_reader is_object parse_url = record {
    is_object = is_object;
    is_empty_object = λ v. is_object v && is_empty (j.names v);
    read_refresh = read_refresh;
    read_season = read_season;
    read_changes = read_changes;
    read_export = read_export;
    read_trending = read_trending;
    read_scan = read_scan;
    parse_url = parse_url;
  }
