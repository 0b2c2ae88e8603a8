-- ===== src/Ingest/Payload.antt =====
-- apps/tmdb-ingest/src/jobs.rs: the jobs of the metadata worker and the reading of their payloads.
-- A date is the number of its day. JSON values, the readers that serde derives for the payload
-- types, the url crate and the printing of dates and digests are parameters.
pub mod Reading
pub mod Scan
pub mod Accepted
use tmdb_mirror.Prelude.{
  ℕ, zero, suc, ◌+◌, ◌-◌, ◌^◌, ◌≡◌, Bool, true, false, not, ◌&&◌, ◌||◌, List, [], ◌∷◌, ◌++◌, Option,
  none, some, ltb, leb, ◌==◌, if◌then◌else◌, length, Result, ok, err, ◌>>=◌, ◌>>◌, reject_if, ℤ,
  pos, negsuc, Text, codes, text_eq,
}
use tmdb_mirror.Prelude.Decimal.{show_number}
use tmdb_mirror.Prelude.Url.{Url}
use tmdb_mirror.Domain.{MediaType, movie, tv, media_type_text}

abbrev pub refresh_movie_job : Text
refresh_movie_job = codes "ingest.refresh_movie"

abbrev pub refresh_tv_job : Text
refresh_tv_job = codes "ingest.refresh_tv"

abbrev pub enrich_movie_job : Text
enrich_movie_job = codes "ingest.enrich_movie"

abbrev pub enrich_tv_job : Text
enrich_tv_job = codes "ingest.enrich_tv"

abbrev pub refresh_season_job : Text
refresh_season_job = codes "ingest.refresh_season"

abbrev pub changes_sync_job : Text
changes_sync_job = codes "ingest.changes_sync"

abbrev pub daily_export_job : Text
daily_export_job = codes "ingest.daily_export"

abbrev pub configuration_job : Text
configuration_job = codes "ingest.configuration"

abbrev pub trending_refresh_job : Text
trending_refresh_job = codes "ingest.trending"

abbrev pub admin_scan_job : Text
admin_scan_job = codes "admin.scan"

abbrev pub admin_analyze_job : Text
admin_analyze_job = codes "admin.analyze"

abbrev pub ingest_payload_version : ℤ
ingest_payload_version = pos 1

pub data RefreshScope : Type 0 where
  full catalog_only : RefreshScope

pub data AdminScanMode : Type 0 where
  full_sweep missing_only recovery prune_cleanup daily_sync reconcile : AdminScanMode

pub data AdminScanPhase : Type 0 where
  start enrichment seasons completion : AdminScanPhase

-- A `NaiveDate`, as the number of its day.
abbrev pub NaiveDate : Type 0
NaiveDate = ℕ

pub record RefreshPayload : Type 0 where
  pub tmdb_id : ℕ
  pub scope : RefreshScope

pub record RefreshSeasonPayload : Type 0 where
  pub tv_id : ℕ
  pub season_number : ℕ

pub record ChangesPayload : Type 0 where
  pub media_type : MediaType
  pub page : ℕ
  pub start_date : Option NaiveDate
  pub end_date : Option NaiveDate

pub record DailyExportPayload : Type 0 where
  pub media_type : MediaType
  pub url : Text
  pub offset : ℕ
  pub refresh_all : Bool

pub record TrendingPayload : Type 0 where
  pub media_type : MediaType
  pub trend_window : Text

pub record AdminScanPayload : Type 0 where
  pub mode : AdminScanMode
  pub media_types : List MediaType
  pub phase : AdminScanPhase
  pub cursor : ℕ
  pub poll : ℕ
  pub window_start : Option NaiveDate
  pub window_end : Option NaiveDate

-- A constructor with several fields takes them as the payload's record.
pub data IngestJob : Type 0 where
  refresh_movie refresh_tv enrich_movie enrich_tv : RefreshPayload → IngestJob
  refresh_season : RefreshSeasonPayload → IngestJob
  changes_sync : ChangesPayload → IngestJob
  daily_export : DailyExportPayload → IngestJob
  configuration : IngestJob
  trending : TrendingPayload → IngestJob
  admin_scan : AdminScanPayload → IngestJob
  admin_analyze : IngestJob

pub data JobPayloadError : Type 0 where
  unknown_job_type unsupported_version invalid_payload invalid_value : JobPayloadError

-- What the code uses of serde_json, with the readers that serde derives, and of the url crate.
pub record Reader (Value : Type 0) : Type 0 where
  pub is_object : Value → Bool
  -- `payload == &json!({})`.
  pub is_empty_object : Value → Bool
  pub read_refresh : Value → Option RefreshPayload
  pub read_season : Value → Option RefreshSeasonPayload
  pub read_changes : Value → Option ChangesPayload
  pub read_export : Value → Option DailyExportPayload
  pub read_trending : Value → Option TrendingPayload
  pub read_scan : Value → Option AdminScanPayload
  pub parse_url : Text → Option Url

abbrev pub is_some {ℓ} : {A : Type ℓ} → Option A → Bool
is_some none = false
is_some (some a) = true

-- `start.zip(end).is_some_and(|(start, end)| start > end || (end - start).num_days() > 13)`.
abbrev pub is_bad_window : Option NaiveDate → Option NaiveDate → Bool
is_bad_window none last = false
is_bad_window (some first) none = false
is_bad_window (some first) (some last) = ltb last first || ltb (first + 13) last

-- `a.is_some() != b.is_some()`.
abbrev pub is_half_window : Option NaiveDate → Option NaiveDate → Bool
is_half_window none none = false
is_half_window none (some e) = true
is_half_window (some s) none = true
is_half_window (some s) (some e) = false

unfoldable pub validate_tmdb_id : ℕ → Result JobPayloadError (Unit {0})
validate_tmdb_id tmdb_id = reject_if (tmdb_id == 0) invalid_value

abbrev pub host_is : Option Text → Text → Bool
host_is none host = false
host_is (some h) host = text_eq h host

abbrev pub is_nonempty : Text → Bool
is_nonempty [] = false
is_nonempty (c ∷ s) = true

abbrev pub check_export_url : Option Url → Result JobPayloadError (Unit {0})
check_export_url none = err invalid_value
check_export_url (some parsed) =
    reject_if
      (not (text_eq parsed.scheme (codes "http") || text_eq parsed.scheme (codes "https"))
        || not (is_some parsed.host_str)
        || is_nonempty parsed.username
        || is_some parsed.password
        || is_some parsed.query
        || is_some parsed.fragment
        || not (host_is parsed.host_str (codes "files.tmdb.org")))
      invalid_value

unfoldable pub is_bad_changes : ChangesPayload → Bool
is_bad_changes p =
    (p.page == 0) || is_half_window p.start_date p.end_date || is_bad_window p.start_date p.end_date

-- The tests on a mode and a phase.
abbrev pub has_batches : AdminScanMode → Bool
has_batches full_sweep = true
has_batches recovery = true
has_batches reconcile = true
has_batches missing_only = true
has_batches _ = false

abbrev pub has_completion : AdminScanMode → Bool
has_completion prune_cleanup = false
has_completion _ = true

abbrev pub is_batch_phase : AdminScanPhase → Bool
is_batch_phase enrichment = true
is_batch_phase seasons = true
is_batch_phase _ = false

abbrev pub is_completion : AdminScanPhase → Bool
is_completion completion = true
is_completion _ = false

abbrev pub is_start : AdminScanPhase → Bool
is_start start = true
is_start _ = false

abbrev pub is_missing_only : AdminScanMode → Bool
is_missing_only missing_only = true
is_missing_only _ = false

abbrev pub is_daily_sync : AdminScanMode → Bool
is_daily_sync daily_sync = true
is_daily_sync _ = false

abbrev pub same_type : MediaType → MediaType → Bool
same_type movie movie = true
same_type tv tv = true
same_type _ _ = false

-- `media_types.windows(2).any(|pair| pair[0] == pair[1])`.
abbrev pub has_repeated_pair : List MediaType → Bool
has_repeated_pair [] = false
has_repeated_pair (a ∷ []) = false
has_repeated_pair (a ∷ b ∷ types) = same_type a b || has_repeated_pair (b ∷ types)

unfoldable pub is_bad_scan : AdminScanPayload → Bool
is_bad_scan p =
    (length p.media_types == 0)
    || ltb 2 (length p.media_types)
    || ltb (2 ^ 63 - 1) p.cursor
    || (is_batch_phase p.phase && not (has_batches p.mode))
    || (is_batch_phase p.phase && not (length p.media_types == 1))
    || (is_completion p.phase && not (has_completion p.mode))
    || (is_start p.phase && not (p.poll == 0))
    || (is_start p.phase && not (is_missing_only p.mode) && not (p.cursor == 0))
    || is_half_window p.window_start p.window_end
    || (not (is_daily_sync p.mode) && (is_some p.window_start || is_some p.window_end))
    || is_bad_window p.window_start p.window_end
    || has_repeated_pair p.media_types

-- `matches!(trend_window, "day" | "week")`.
unfoldable pub is_trend_window : Text → Bool
unfolding text_eq
is_trend_window w = text_eq w (codes "day") || text_eq w (codes "week")

-- `match` on a text: the first arm whose pattern is the text, or the last.
abbrev pub match_text {ℓ} : {A : Type ℓ} → Text → List (Text × A) → A → A
match_text s [] other = other
match_text s ((pattern, a) ∷ arms) other = if text_eq s pattern then a else match_text s arms other

module _ {Value : Type 0} (reader : Reader Value) where
  unfoldable pub validate_export_url : Text → Result JobPayloadError (Unit {0})
  validate_export_url url = check_export_url (reader.parse_url url)

  abbrev pub ok_or_invalid : {A : Type 0} → Option A → Result JobPayloadError A
  ok_or_invalid none = err invalid_payload
  ok_or_invalid (some a) = ok a

  unfoldable pub parse_payload :
      {A : Type 0} → (Value → Option A) → Value → Result JobPayloadError A
  parse_payload read payload =
      if not (reader.is_object payload) then err invalid_payload else ok_or_invalid (read payload)

  unfoldable pub parse_refresh :
      (RefreshPayload → IngestJob) → Value → Result JobPayloadError IngestJob
  parse_refresh job payload = do
    r ← parse_payload reader.read_refresh payload
    validate_tmdb_id r.tmdb_id
    ok (job r)

  unfoldable pub parse_season : Value → Result JobPayloadError IngestJob
  parse_season payload = do
    r ← parse_payload reader.read_season payload
    validate_tmdb_id r.tv_id
    ok (refresh_season r)

  unfoldable pub parse_changes : Value → Result JobPayloadError IngestJob
  parse_changes payload = do
    r ← parse_payload reader.read_changes payload
    reject_if (is_bad_changes r) invalid_value
    ok (changes_sync r)

  unfoldable pub parse_export : Value → Result JobPayloadError IngestJob
  parse_export payload = do
    r ← parse_payload reader.read_export payload
    validate_export_url r.url
    ok (daily_export r)

  unfoldable pub parse_trending : Value → Result JobPayloadError IngestJob
  parse_trending payload = do
    r ← parse_payload reader.read_trending payload
    reject_if (not (is_trend_window r.trend_window)) invalid_value
    ok (trending r)

  unfoldable pub parse_scan : Value → Result JobPayloadError IngestJob
  parse_scan payload = do
    r ← parse_payload reader.read_scan payload
    reject_if (is_bad_scan r) invalid_value
    ok (admin_scan r)

  -- The jobs without a payload.
  unfoldable pub parse_empty : IngestJob → Value → Result JobPayloadError IngestJob
  parse_empty job payload = if reader.is_empty_object payload then ok job else err invalid_payload

  abbrev pub is_version : ℤ → Bool
  is_version (pos n) = n == 1
  is_version (negsuc n) = false

  abbrev pub arms : Value → List (Text × Result JobPayloadError IngestJob)
  arms payload =
      (refresh_movie_job, parse_refresh refresh_movie payload)
      ∷ (refresh_tv_job, parse_refresh refresh_tv payload)
      ∷ (enrich_movie_job, parse_refresh enrich_movie payload)
      ∷ (enrich_tv_job, parse_refresh enrich_tv payload)
      ∷ (refresh_season_job, parse_season payload)
      ∷ (changes_sync_job, parse_changes payload)
      ∷ (daily_export_job, parse_export payload)
      ∷ (trending_refresh_job, parse_trending payload)
      ∷ (admin_scan_job, parse_scan payload)
      ∷ (configuration_job, parse_empty configuration payload)
      ∷ (admin_analyze_job, parse_empty admin_analyze payload)
      ∷ []

  unfoldable pub parse_job : Text → ℤ → Value → Result JobPayloadError IngestJob
  parse_job job_type version payload =
      if not (is_version version)
      then err unsupported_version
      else match_text job_type (arms payload) (err unknown_job_type)

-- The texts of the Rust types by `{:?}`, and of what the code does not print itself.
abbrev pub mode_text : AdminScanMode → Text
mode_text full_sweep = codes "FullSweep"
mode_text missing_only = codes "MissingOnly"
mode_text recovery = codes "Recovery"
mode_text prune_cleanup = codes "PruneCleanup"
mode_text daily_sync = codes "DailySync"
mode_text reconcile = codes "Reconcile"

abbrev pub phase_text : AdminScanPhase → Text
phase_text start = codes "Start"
phase_text enrichment = codes "Enrichment"
phase_text seasons = codes "Seasons"
phase_text completion = codes "Completion"

abbrev pub type_text : MediaType → Text
type_text movie = codes "Movie"
type_text tv = codes "Tv"

abbrev more_types : List MediaType → Text
more_types [] = codes "]"
more_types (t ∷ types) = codes ", " ++ (type_text t ++ more_types types)

abbrev pub types_text : List MediaType → Text
types_text [] = codes "[]"
types_text (t ∷ types) = codes "[" ++ (type_text t ++ more_types types)

abbrev pub keyed : Text → ℕ → Text
keyed job_type n = job_type ++ (codes ":" ++ show_number n)

unfoldable pub season_key : ℕ → ℕ → Text
season_key tv_id season_number =
    refresh_season_job
    ++ (codes ":" ++ (show_number tv_id ++ (codes ":" ++ show_number season_number)))

module _ (show_date : NaiveDate → Text) where
  abbrev pub option_date_text : Option NaiveDate → Text
  option_date_text none = codes "None"
  option_date_text (some d) = codes "Some(" ++ (show_date d ++ codes ")")

  unfoldable pub scan_key : AdminScanPayload → Text
  scan_key p =
      admin_scan_job
      ++ (codes ":"
          ++ (mode_text p.mode
              ++ (codes ":"
                  ++ (types_text p.media_types
                      ++ (codes ":"
                          ++ (phase_text p.phase
                              ++ (codes ":"
                                  ++ (show_number p.cursor
                                      ++ (codes ":"
                                          ++ (show_number p.poll
                                              ++ (codes ":"
                                                  ++ (option_date_text p.window_start
                                                      ++ (codes ":"
                                                          ++ option_date_text
                                                            p.window_end)))))))))))))

module _ (show_date : NaiveDate → Text) (digest_text : Text → Text) where
  unfoldable pub dedup_key : IngestJob → Text
  unfolding scan_key season_key
  dedup_key (refresh_movie r) = keyed refresh_movie_job r.tmdb_id
  dedup_key (refresh_tv r) = keyed refresh_tv_job r.tmdb_id
  dedup_key (enrich_movie r) = keyed enrich_movie_job r.tmdb_id
  dedup_key (enrich_tv r) = keyed enrich_tv_job r.tmdb_id
  dedup_key (refresh_season r) = season_key r.tv_id r.season_number
  dedup_key (changes_sync r) =
      changes_sync_job
      ++ (codes ":"
          ++ (media_type_text r.media_type
              ++ (codes ":"
                  ++ (option_date_text show_date r.start_date
                      ++ (codes ":"
                          ++ (option_date_text show_date r.end_date
                              ++ (codes ":" ++ show_number r.page)))))))
  dedup_key (daily_export r) =
      daily_export_job
      ++ (codes ":"
          ++ (media_type_text r.media_type
              ++ (codes ":" ++ (digest_text r.url ++ (codes ":" ++ show_number r.offset)))))
  dedup_key configuration = configuration_job
  dedup_key (trending r) =
      trending_refresh_job
      ++ (codes ":" ++ (media_type_text r.media_type ++ (codes ":" ++ r.trend_window)))
  dedup_key (admin_scan r) = scan_key show_date r
  dedup_key admin_analyze = admin_analyze_job
