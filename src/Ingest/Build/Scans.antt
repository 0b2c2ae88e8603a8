-- ===== src/Ingest/Build/Scans.antt =====
-- apps/tmdb-ingest/src/jobs.rs: the jobs of a catalog scan's phases are read back as they were
-- built.
use tmdb_mirror.Prelude.{
  ℕ, ◌+◌, ◌^◌, ◌≤◌, ◌<◌, ◌≡◌, refl, ◌≢◌, true, false, ◌&&◌, List, [], ◌∷◌, ◌++◌, Option, none, some,
  length, length-append, all, all-append, ok, pos, leℤ, Text, codes, text_eq, arith,
}
use tmdb_mirror.Prelude.Url.{Url}
use tmdb_mirror.Prelude.Decimal.{show_number, length-show_number, all-show_number}
use tmdb_mirror.Domain.{MediaType, movie, tv}
use tmdb_mirror.Jobs.Model.{
  Platform, NewJob, new_job, with_priority, with_max_attempts, with_available_at, is_oversized,
}
use tmdb_mirror.Jobs.Model.Plain.{IsPlain}
use tmdb_mirror.Jobs.Model.Builder.{created_job}
use tmdb_mirror.Ingest.Json.{Json, IsJson}
use tmdb_mirror.Ingest.Payload
use tmdb_mirror.Ingest.Payload.{
  NaiveDate, AdminScanMode, full_sweep, missing_only, recovery, prune_cleanup, daily_sync,
  reconcile, AdminScanPhase, start, enrichment, seasons, completion, AdminScanPayload, admin_scan,
  mode_text, phase_text, types_text, option_date_text, scan_key, parse_job, parse_scan,
  parse_payload, dedup_key,
}
use tmdb_mirror.Ingest.Payload.Scan.{IsTypes, IsScan, is_bad_scan_iff}
use tmdb_mirror.Ingest.Build.{scan_job_key, scan_payload, admin_scan_job_with_window}
use tmdb_mirror.Ingest.Build.Keys.{
  is_solid, is_printable, IsTail, IsTail-of_solid, IsTail-append, IsPlain-of_IsTail,
  StartsClean-of_solid, printable_of_solid,
}
use tmdb_mirror.Ingest.Build.Read.{read_scan-payload}
use tmdb_mirror.Ingest.Build.Made.{IsPlain-of_IsName, Carries, new_job-returns}

-- A printable text of bounded length, at the front of a key.
abbrev IsFront : ℕ → Text → Type 0
IsFront n s = (length s ≤ n) × (all is_printable s ≡ true)

mode_text-IsFront : (m : AdminScanMode) → IsFront 12 (mode_text m)
mode_text-IsFront full_sweep = (omega arith, refl)
mode_text-IsFront missing_only = (omega arith, refl)
mode_text-IsFront recovery = (omega arith, refl)
mode_text-IsFront prune_cleanup = (omega arith, refl)
mode_text-IsFront daily_sync = (omega arith, refl)
mode_text-IsFront reconcile = (omega arith, refl)

phase_text-IsFront : (f : AdminScanPhase) → IsFront 10 (phase_text f)
phase_text-IsFront start = (omega arith, refl)
phase_text-IsFront enrichment = (omega arith, refl)
phase_text-IsFront seasons = (omega arith, refl)
phase_text-IsFront completion = (omega arith, refl)

types_text-IsFront : (types : List MediaType) → IsTypes types → IsFront 14 (types_text types)
types_text-IsFront [] h = absurd h
types_text-IsFront (movie ∷ []) h = (omega arith, refl)
types_text-IsFront (tv ∷ []) h = (omega arith, refl)
types_text-IsFront (movie ∷ movie ∷ []) h = (omega arith, refl)
types_text-IsFront (movie ∷ tv ∷ []) h = (omega arith, refl)
types_text-IsFront (tv ∷ movie ∷ []) h = (omega arith, refl)
types_text-IsFront (tv ∷ tv ∷ []) h = (omega arith, refl)
types_text-IsFront (a ∷ b ∷ c ∷ types) h = absurd h

number-IsFront : (n : ℕ) → n < 2 ^ 64 → IsFront 20 (show_number n)
number-IsFront n h =
    (length-show_number n 19 (omega arith), all-show_number is_printable n (λ d k. ground arith))

-- The texts that chrono prints for a date by `{:?}`.
pub record PrintsDates (show_date : NaiveDate → Text) : Type 0 where
  pub short : (d : NaiveDate) → length (show_date d) ≤ 16
  pub solid : (d : NaiveDate) → all is_solid (show_date d) ≡ true

part :
    (m n : ℕ) (s t : Text) → IsFront m s → IsTail n t → IsTail (m + (1 + n)) (s ++ (codes ":" ++ t))
part m n s t front tail =
    IsTail-append m (1 + n) s (codes ":" ++ t) front.0 front.1
      (IsTail-append 1 n (codes ":") t (omega arith) refl tail)

module _ (show_date : NaiveDate → Text) (prints : PrintsDates show_date) where
  date_solid : (d : Option NaiveDate) → all is_solid (option_date_text show_date d) ≡ true
  date_solid none = refl
  date_solid (some d) = rw (all-append is_solid (show_date d) (codes ")")) (rw (prints.solid d))

  date_short : (d : Option NaiveDate) → length (option_date_text show_date d) ≤ 22
  date_short none = omega arith
  date_short (some d) = omega (arith, length-append (show_date d) (codes ")"), prints.short d)

  date-IsFront : (d : Option NaiveDate) → IsFront 22 (option_date_text show_date d)
  date-IsFront d = (date_short d, printable_of_solid (option_date_text show_date d) (date_solid d))

  date_nonempty : (d : Option NaiveDate) → option_date_text show_date d ≢ []
  date_nonempty none e = cc
  date_nonempty (some d) e = cc

  date_tail : (d : Option NaiveDate) → IsTail 22 (option_date_text show_date d)
  date_tail d = IsTail-of_solid 22 _ (date_nonempty d) (date_short d) (date_solid d)

  scan_key-IsPlain :
      (r : AdminScanPayload)
      → IsTypes r.media_types
      → r.cursor < 2 ^ 64
      → r.poll < 2 ^ 64
      → IsPlain 256 (scan_key show_date r)
  unfolding scan_key
  scan_key-IsPlain r types cursor poll =
      IsPlain-of_IsTail 137 256 _ (omega arith) (StartsClean-of_solid (codes "a") refl) (
        part 10 126 Payload.admin_scan_job _ (omega arith, refl)
          (part 12 113 _ _ (mode_text-IsFront r.mode) (
            part 14 98 _ _ (types_text-IsFront r.media_types types) (
              part 10 87 _ _ (phase_text-IsFront r.phase) (
                part 20 66 _ _ (number-IsFront r.cursor cursor) (
                  part 20 45 _ _ (number-IsFront r.poll poll)
                    (part 22 22 _ _ (date-IsFront r.window_start) (date_tail r.window_end))))))))

module _ (p : Platform) (j : Json p.Value) (is : IsJson p.is_object j)
    (parse_url : Text → Option Url) (show_date : NaiveDate → Text) (digest_text : Text → Text)
    (prints : PrintsDates show_date) where
  abbrev scan_job : p.DateTime → AdminScanPayload → NewJob p.Value p.DateTime
  scan_job time r =
      record (created_job p Payload.admin_scan_job (pos 1) (scan_payload p j r)
        (scan_job_key show_date r)) {
          priority = pos 150;
          max_attempts = pos 100;
          available_at = some time;
        }

  scan_job-Carries :
      (time : p.DateTime) (r : AdminScanPayload)
      → IsScan r
      → r.poll < 2 ^ 32
      → Carries p j is parse_url show_date digest_text (admin_scan r) (scan_job time r)
  unfolding scan_job_key scan_key parse_job text_eq dedup_key parse_scan parse_payload
  scan_job-Carries time r h k = record {
    parsed = rw (is.is_object-object _) (
        rw (read_scan-payload p j is r (omega (arith, h.cursor)) k) (rw ((is_bad_scan_iff r).1 h)));
    key = refl;
  }

  scan_job_key-IsPlain :
      (r : AdminScanPayload)
      → IsTypes r.media_types
      → r.cursor < 2 ^ 64
      → r.poll < 2 ^ 64
      → IsPlain 256 (scan_job_key show_date r)
  unfolding scan_job_key scan_key
  scan_job_key-IsPlain = scan_key-IsPlain show_date prints

  new_scan :
      (r : AdminScanPayload)
      → IsScan r
      → r.poll < 2 ^ 32
      → is_oversized (p.to_vec (scan_payload p j r)) ≡ false
      → new_job p Payload.admin_scan_job (pos 1) (scan_payload p j r) (scan_job_key show_date r)
        ≡ ok (
            created_job p Payload.admin_scan_job
              (pos 1)
              (scan_payload p j r)
              (scan_job_key show_date r))
  new_scan r h k small =
      new_job-returns p _ _ _
        (IsPlain-of_IsName Payload.admin_scan_job
          (record { nonempty = λ e. cc; short = omega arith; solid = refl }))
        (is.is_object-object _) small
        (scan_job_key-IsPlain r h.types (omega (arith, h.cursor)) (omega arith))

  -- Every scan state that `parse_job` accepts, with a poll count of 32 bits, is built into a job
  -- that reads back as that state and has its key, when the payload serialises to at most 64 KiB
  -- and the clock shows a year from 1 to 9999.
  pub admin_scan_job-Carries :
      (later : ℕ → p.DateTime) (r : AdminScanPayload)
      → IsScan r
      → r.poll < 2 ^ 32
      → is_oversized (p.to_vec (scan_payload p j r)) ≡ false
      → leℤ (pos 1) (p.year (later 2)) && leℤ (p.year (later 2)) (pos 9999) ≡ true
      → (job : NewJob p.Value p.DateTime) × (admin_scan_job_with_window p j show_date later r
          ≡ ok job)
        × Carries p j is parse_url show_date digest_text (admin_scan r) job
  unfolding admin_scan_job_with_window with_priority with_max_attempts with_available_at
  admin_scan_job-Carries later r h k small w =
      (scan_job (later 2) r, rw (new_scan r h k small) (rw w), scan_job-Carries (later 2) r h k)
