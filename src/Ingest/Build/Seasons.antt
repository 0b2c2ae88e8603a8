-- ===== src/Ingest/Build/Seasons.antt =====
-- apps/tmdb-ingest/src/jobs.rs: the season jobs that a catalog scan queues.
use mathlib.Core.Path.{subst}
use tmdb_mirror.Prelude.{ℕ, ◌≡◌, ok, err, ok_of_bind, pos, Text, text_eq, ok_of_map_err, Option}
use tmdb_mirror.Prelude.Url.{Url}
use tmdb_mirror.Jobs.Model.{Platform, NewJob}
use tmdb_mirror.Jobs.Model.Builder.{new_job-eq-ok}
use tmdb_mirror.Ingest.Json.{Json, IsJson}
use tmdb_mirror.Ingest.Payload.{
  refresh_season_job, parse_job, parse_season, parse_payload, invalid_payload,
}
use tmdb_mirror.Ingest.Payload.Reading.{serde_reader}
use tmdb_mirror.Ingest.Build.{
  season_job_key, CatalogSeasonRow, season_payload, season_job, u32_of_signed,
}
use tmdb_mirror.Ingest.Build.Read.{read_season-none}

module _ (p : Platform) (j : Json p.Value) (is : IsJson p.is_object j)
    (parse_url : Text → Option Url) where
  parse_season-payload :
      (tv_id season_number : ℕ)
      → parse_job
          (serde_reader j p.is_object parse_url)
          refresh_season_job
          (pos 1)
          (season_payload p j tv_id season_number)
        ≡ err invalid_payload
  unfolding parse_job text_eq parse_season parse_payload
  parse_season-payload tv_id season_number =
      rw (is.is_object-object _) (rw (read_season-none p j is tv_id season_number))

  -- Every season job that a catalog scan builds is refused by the worker that executes it, as an
  -- invalid payload.
  pub season_job-refused :
      (row : CatalogSeasonRow) (job : NewJob p.Value p.DateTime)
      → season_job p j row ≡ ok job
      → parse_job
          (serde_reader j p.is_object parse_url)
          job.job_type
          job.payload_version
          job.payload
        ≡ err invalid_payload
  unfolding season_job
  season_job-refused row job e =
      let (tv_id, a, e₁) = ok_of_bind (u32_of_signed row.tmdb_id) _ e in
      let (season_number, b, e₂) = ok_of_bind (u32_of_signed row.season_number) _ e₁ in
      let made = ok_of_map_err _ _ e₂ in
      let fields =
        new_job-eq-ok p refresh_season_job (pos 1) (season_payload p j tv_id season_number)
          (season_job_key tv_id season_number) made in
      subst
        (λ n.
          parse_job (serde_reader j p.is_object parse_url) n.job_type n.payload_version n.payload
          ≡ err invalid_payload)
        fields.4 (parse_season-payload tv_id season_number)
