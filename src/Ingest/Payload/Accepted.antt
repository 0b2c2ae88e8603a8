-- ===== src/Ingest/Payload/Accepted.antt =====
-- apps/tmdb-ingest/src/jobs.rs: what `parse_job` gives, whatever the payload's JSON is.
use mathlib.Core.Path.{subst}
use tmdb_mirror.Prelude.{
  List, not, text_eq, ◌<◌, ◌≡◌, refl, ap, ◌⊎◌, Bool, true, false, [], ◌∷◌, Option, none, some,
  if◌then◌else◌, Result, ok, err, ◌>>=◌, ℤ, Text, codes, text_eq_iff, arith,
}
use tmdb_mirror.Prelude.Url.{Url}
use tmdb_mirror.Ingest.Payload.{
  NaiveDate, RefreshPayload, ChangesPayload, IngestJob, refresh_movie, refresh_tv, enrich_movie,
  enrich_tv, refresh_season, changes_sync, daily_export, configuration, trending, admin_scan,
  admin_analyze, JobPayloadError, Reader, validate_tmdb_id, validate_export_url, check_export_url,
  is_bad_changes, is_trend_window, parse_payload, parse_refresh, parse_season, parse_changes,
  parse_export, parse_trending, parse_scan, parse_empty, parse_job, arms, is_nonempty, is_version,
  match_text, unknown_job_type, is_some, host_is, is_bad_window, is_half_window,
}
use tmdb_mirror.Ingest.Payload.Scan.{IsWindow, IsScan, is_bad_scan_iff}

-- An http or https URL of the export host, without credentials, query and fragment.
abbrev pub IsExportUrl : Option Url → Type 0
IsExportUrl none = ⊥
IsExportUrl (some u) =
    ((u.scheme ≡ codes "http") ⊎ (u.scheme ≡ codes "https"))
    × (u.host_str ≡ some (codes "files.tmdb.org"))
    × (u.username ≡ [])
    × (u.password ≡ none)
    × (u.query ≡ none)
    × (u.fragment ≡ none)

-- The tests on the URL, one by one.
nonempty_test : (s : Text) → is_nonempty s ≡ false → s ≡ []
nonempty_test [] h = refl
nonempty_test (c ∷ s) h = cc

some_test : (o : Option Text) → is_some o ≡ false → o ≡ none
some_test none h = refl
some_test (some s) h = cc

host_test : (o : Option Text) (host : Text) → host_is o host ≡ true → o ≡ some host
host_test none host h = cc
host_test (some s) host h = ap some ((text_eq_iff s host).0 h)

scheme_of_check :
    (u : Url)
    → check_export_url (some u) ≡ ok tt
    → (u.scheme ≡ codes "http") ⊎ (u.scheme ≡ codes "https")
scheme_of_check u h =
    ground (arith, text_eq_iff u.scheme (codes "http"), text_eq_iff u.scheme (codes "https"))

url_of_check : (u : Option Url) → check_export_url u ≡ ok tt → IsExportUrl u
url_of_check none h = cc
url_of_check (some u) h = (
  scheme_of_check u h,
  host_test u.host_str _ (ground arith),
  nonempty_test u.username (ground arith),
  some_test u.password (ground arith),
  some_test u.query (ground arith),
  some_test u.fragment (ground arith),
)

dates_of_tests :
    (s e : Option NaiveDate) → is_half_window s e ≡ false → is_bad_window s e ≡ false → IsWindow s e
dates_of_tests none none h k = tt
dates_of_tests none (some e) h k = cc
dates_of_tests (some s) none h k = cc
dates_of_tests (some s) (some e) h k = ground arith

accepted_changes :
    (p : ChangesPayload)
    → is_bad_changes p ≡ false
    → (0 < p.page) × IsWindow p.start_date p.end_date
unfolding is_bad_changes
accepted_changes p h =
    (ground arith, dates_of_tests p.start_date p.end_date (ground arith) (ground arith))

module _ {Value : Type 0} (reader : Reader Value) where
  -- What the worker may rely on about a job.
  abbrev pub IsJob : IngestJob → Type 0
  IsJob (refresh_movie r) = 0 < r.tmdb_id
  IsJob (refresh_tv r) = 0 < r.tmdb_id
  IsJob (enrich_movie r) = 0 < r.tmdb_id
  IsJob (enrich_tv r) = 0 < r.tmdb_id
  IsJob (refresh_season r) = 0 < r.tv_id
  IsJob (changes_sync r) = (0 < r.page) × IsWindow r.start_date r.end_date
  IsJob (daily_export r) = IsExportUrl (reader.parse_url r.url)
  IsJob configuration = Unit
  IsJob (trending r) = (r.trend_window ≡ codes "day") ⊎ (r.trend_window ≡ codes "week")
  IsJob (admin_scan r) = IsScan r
  IsJob admin_analyze = Unit

  -- The post-condition of a parser: the job that it returns is one the worker may rely on.
  abbrev Gives : Result JobPayloadError IngestJob → Type 0
  Gives (err e) = Unit
  Gives (ok job) = IsJob job

  -- A read payload and one test on it.
  checked-Gives :
      {A : Type 0} (read : Value → Option A) (test : A → Result JobPayloadError (Unit {0}))
      (job : A → IngestJob)
      → ((r : A) → test r ≡ ok tt → IsJob (job r))
      → (payload : Value)
      → Gives (parse_payload reader read payload >>= λ r. test r >>= λ u. ok (job r))
  checked-Gives read test job is payload =
      elim (parse_payload reader read payload)
        as (λ p. Gives (p >>= λ r. test r >>= λ u. ok (job r))) [
          | err e ↦ tt
          | ok r ↦ tested (test r) (job r) (is r)
        ]
    where
      tested :
          (t : Result JobPayloadError (Unit {0})) (j : IngestJob)
          → (t ≡ ok tt → IsJob j)
          → Gives (t >>= λ u. ok j)
      tested (err e) j is = tt
      tested (ok u) j is = is refl

  parse_refresh-Gives :
      (job : RefreshPayload → IngestJob)
      → ((r : RefreshPayload) → 0 < r.tmdb_id → IsJob (job r))
      → (payload : Value) → Gives (parse_refresh reader job payload)
  unfolding parse_refresh validate_tmdb_id
  parse_refresh-Gives job is = checked-Gives reader.read_refresh _ job (λ r h. is r (ground arith))

  parse_season-Gives : (payload : Value) → Gives (parse_season reader payload)
  unfolding parse_season validate_tmdb_id
  parse_season-Gives = checked-Gives reader.read_season _ refresh_season (λ r h. ground arith)

  parse_changes-Gives : (payload : Value) → Gives (parse_changes reader payload)
  unfolding parse_changes
  parse_changes-Gives =
      checked-Gives reader.read_changes _ changes_sync (λ r h. accepted_changes r (ground arith))

  parse_export-Gives : (payload : Value) → Gives (parse_export reader payload)
  unfolding parse_export validate_export_url
  parse_export-Gives =
      checked-Gives reader.read_export _ daily_export
        (λ r h. url_of_check (reader.parse_url r.url) h)

  parse_trending-Gives : (payload : Value) → Gives (parse_trending reader payload)
  unfolding parse_trending is_trend_window
  parse_trending-Gives = checked-Gives reader.read_trending _ trending λ r h.
      ground
        (arith, text_eq_iff r.trend_window (codes "day"), text_eq_iff r.trend_window (codes "week"))

  parse_scan-Gives : (payload : Value) → Gives (parse_scan reader payload)
  unfolding parse_scan
  parse_scan-Gives =
      checked-Gives reader.read_scan _ admin_scan (λ r h. (is_bad_scan_iff r).0 (ground arith))

  parse_empty-Gives :
      (job : IngestJob) → IsJob job → (payload : Value) → Gives (parse_empty reader job payload)
  unfolding parse_empty
  parse_empty-Gives job is payload = ground arith

  if-Gives :
      (b : Bool) (r s : Result JobPayloadError IngestJob)
      → Gives r
      → Gives s
      → Gives (if b then r else s)
  if-Gives true r s h k = h
  if-Gives false r s h k = k

  AllGive : List (Text × Result JobPayloadError IngestJob) → Type 0
  AllGive [] = Unit
  AllGive (arm ∷ more) = Gives arm.1 × AllGive more

  match_text-Gives :
      (s : Text) (cases : List (Text × Result JobPayloadError IngestJob))
      (other : Result JobPayloadError IngestJob)
      → AllGive cases
      → Gives other
      → Gives (match_text s cases other)
  unfolding AllGive
  match_text-Gives s [] other h k = k
  match_text-Gives s (arm ∷ more) other h k =
      if-Gives (text_eq s arm.0) arm.1 (match_text s more other) h.0
        (match_text-Gives s more other h.1 k)

  parse_job-Gives :
      (job_type : Text) (version : ℤ) (payload : Value)
      → Gives (parse_job reader job_type version payload)
  unfolding parse_job AllGive
  parse_job-Gives job_type version payload =
      let given =
        match_text-Gives job_type (arms reader payload) (err unknown_job_type)
          (
            parse_refresh-Gives refresh_movie (λ r h. h) payload,
            (
              parse_refresh-Gives refresh_tv (λ r h. h) payload,
              (
                parse_refresh-Gives enrich_movie (λ r h. h) payload,
                (
                  parse_refresh-Gives enrich_tv (λ r h. h) payload,
                  (
                    parse_season-Gives payload,
                    (
                      parse_changes-Gives payload,
                      (
                        parse_export-Gives payload,
                        (
                          parse_trending-Gives payload,
                          (
                            parse_scan-Gives payload,
                            (
                              parse_empty-Gives configuration tt payload,
                              (parse_empty-Gives admin_analyze tt payload, tt),
                            ),
                          ),
                        ),
                      ),
                    ),
                  ),
                ),
              ),
            ),
          )
          tt in
      if-Gives (not (is_version reader version)) _ _ tt given

  -- Whatever text, version and JSON a job has, what `parse_job` reads from it is a job the worker
  -- may rely on: ids and the page are positive, a window has both dates in order and spans at most
  -- fourteen days, an export URL is an http or https URL of files.tmdb.org without credentials,
  -- query and fragment, a trend window is day or week, and a scan is one that its mode and phase
  -- allow.
  pub parse_job-IsJob :
      (job_type : Text) (version : ℤ) (payload : Value) {job : IngestJob}
      → parse_job reader job_type version payload ≡ ok job
      → IsJob job
  parse_job-IsJob job_type version payload h =
      subst Gives h (parse_job-Gives job_type version payload)
