-- ===== src/Ingest/Build/Read.antt =====
-- apps/tmdb-ingest/src/jobs.rs: what the worker reads back from the payloads that it builds.
use tmdb_mirror.Prelude.{
  ℕ, ◌^◌, ◌<◌, ◌≡◌, refl, Bool, List, [], ◌∷◌, map, Option, none, some, Text, codes, text_eq,
}
use tmdb_mirror.Domain.{MediaType, movie, tv}
use tmdb_mirror.Jobs.Model.{Platform}
use tmdb_mirror.Ingest.Json.{Json, IsJson, nullable, read_all}
use tmdb_mirror.Ingest.Payload.{
  NaiveDate, RefreshScope, full, catalog_only, AdminScanMode, full_sweep, missing_only, recovery,
  prune_cleanup, daily_sync, reconcile, AdminScanPhase, start, enrichment, seasons, completion,
  AdminScanPayload,
}
use tmdb_mirror.Ingest.Payload.Reading.{
  scope_name, scan_mode_name, phase_name, media_type_name, read_refresh, read_season, read_export,
  read_scan, read_media_type, read_mode, read_phase,
}
use tmdb_mirror.Ingest.Build.{
  refresh_payload, season_payload, export_payload, scan_payload, date_value,
}

module _ (p : Platform) (j : Json p.Value) (is : IsJson p.is_object j) where
  open is use {
    member-empty, member-insert, names-empty, names-insert, read_u32-number, read_u64-number,
    read_bool-boolean, read_string-string, variant-string, read_array-array, read_date-date,
    null-null, null-date,
  }

  pub read_refresh-payload :
      (tmdb_id : ℕ) (scope : RefreshScope)
      → tmdb_id < 2 ^ 32
      → read_refresh j (refresh_payload p j tmdb_id scope)
        ≡ some (record { tmdb_id = tmdb_id; scope = scope })
  unfolding read_refresh text_eq scope_name
  read_refresh-payload tmdb_id full h =
      simp (names-insert, names-empty, member-insert, read_u32-number tmdb_id h, variant-string)
  read_refresh-payload tmdb_id catalog_only h =
      simp (names-insert, names-empty, member-insert, read_u32-number tmdb_id h, variant-string)

  pub read_refresh-default :
      (tmdb_id : ℕ)
      → tmdb_id < 2 ^ 32
      → read_refresh j (j.object (j.insert (codes "tmdb_id") (j.number tmdb_id) j.empty))
        ≡ some (record { tmdb_id = tmdb_id; scope = full })
  unfolding read_refresh text_eq
  read_refresh-default tmdb_id h =
      simp (names-insert, names-empty, member-insert, member-empty, read_u32-number tmdb_id h)

  -- The payload has a field that its type does not have.
  pub read_season-none :
      (tv_id season_number : ℕ) → read_season j (season_payload p j tv_id season_number) ≡ none
  unfolding read_season text_eq scope_name
  read_season-none tv_id season_number = simp names-insert

  read_type_name : (t : MediaType) → read_media_type j (j.string (media_type_name t)) ≡ some t
  unfolding media_type_name text_eq
  read_type_name movie = simp variant-string
  read_type_name tv = simp variant-string

  pub read_export-payload :
      (t : MediaType) (url : Text) (offset : ℕ) (refresh_all : Bool)
      → offset < 2 ^ 64
      → read_export j (export_payload p j t url offset refresh_all)
        ≡ some (record { media_type = t; url = url; offset = offset; refresh_all = refresh_all })
  unfolding read_export text_eq
  read_export-payload t url offset refresh_all h = simp (
    names-insert,
    names-empty,
    member-insert,
    read_u64-number offset h,
    read_bool-boolean,
    read_string-string,
    read_type_name,
  )

  read_mode_name : (m : AdminScanMode) → read_mode j (j.string (scan_mode_name m)) ≡ some m
  unfolding scan_mode_name text_eq
  read_mode_name full_sweep = simp variant-string
  read_mode_name missing_only = simp variant-string
  read_mode_name recovery = simp variant-string
  read_mode_name prune_cleanup = simp variant-string
  read_mode_name daily_sync = simp variant-string
  read_mode_name reconcile = simp variant-string

  read_phase_name : (f : AdminScanPhase) → read_phase j (j.string (phase_name f)) ≡ some f
  unfolding phase_name text_eq
  read_phase_name start = simp variant-string
  read_phase_name enrichment = simp variant-string
  read_phase_name seasons = simp variant-string
  read_phase_name completion = simp variant-string

  read_all_names :
      (types : List MediaType)
      → read_all (read_media_type j) (map (λ t. j.string (media_type_name t)) types) ≡ some types
  read_all_names [] = refl
  read_all_names (t ∷ types) = simp (read_type_name, read_all_names types)

  read_date_value : (d : Option NaiveDate) → nullable j j.read_date (date_value p j d) ≡ some d
  read_date_value none = simp null-null
  read_date_value (some d) = simp (null-date, read_date-date)

  pub read_scan-payload :
      (r : AdminScanPayload)
      → r.cursor < 2 ^ 64
      → r.poll < 2 ^ 32
      → read_scan j (scan_payload p j r) ≡ some r
  unfolding read_scan text_eq
  read_scan-payload r h k = simp (
    names-insert,
    names-empty,
    member-insert,
    read_u64-number r.cursor h,
    read_u32-number r.poll k,
    read_mode_name,
    read_phase_name,
    read_array-array,
    read_all_names,
    read_date_value,
  )
