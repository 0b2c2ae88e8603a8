-- ===== src/Ingest/Build/Made.antt =====
-- apps/tmdb-ingest/src/jobs.rs: a job that the worker builds is read back as the work intended.
use tmdb_mirror.Prelude.{
  ℕ, ◌^◌, ◌≤◌, ◌<◌, ◌≡◌, refl, ◌≢◌, true, false, not, ◌&&◌, [], ◌∷◌, ◌++◌, Option, length, all, ok,
  ℤ, pos, negsuc, leℤ, Text, codes, text_eq, ltb, ◌==◌, arith,
}
use tmdb_mirror.Prelude.Url.{Url}
use tmdb_mirror.Prelude.Trim.{StartsClean}
use tmdb_mirror.Prelude.Decimal.{
  show_number, show_number-nonempty, length-show_number, all-show_number,
}
use tmdb_mirror.Domain.{MediaType, movie, tv}
use tmdb_mirror.Jobs.Error.{ValidationError}
use tmdb_mirror.Jobs.Model.{
  Platform, NewJob, new_job, with_priority, validate_json_object, is_oversized,
}
use tmdb_mirror.Jobs.Model.Plain.{IsPlain, validate_text_iff}
use tmdb_mirror.Jobs.Model.Builder.{created_job}
use tmdb_mirror.Ingest.Json.{Json, IsJson}
use tmdb_mirror.Ingest.Payload.{
  NaiveDate, RefreshScope, RefreshPayload, IngestJob, refresh_movie, refresh_tv, keyed, parse_job,
  parse_refresh, parse_payload, dedup_key, validate_tmdb_id,
}
use tmdb_mirror.Ingest.Payload.Reading.{serde_reader}
use tmdb_mirror.Ingest.Build.{refresh_job, refresh_payload, refresh_type, validate_refresh_tmdb_id}
use tmdb_mirror.Ingest.Build.Keys.{
  is_solid, IsTail, StartsClean-of_solid, printable_of_solid, IsTail-of_solid, IsTail-append,
  IsPlain-of_IsTail,
}
use tmdb_mirror.Ingest.Build.Read.{read_refresh-payload}

pub number_tail : (n : ℕ) → n < 2 ^ 64 → IsTail 20 (show_number n)
number_tail n h =
    IsTail-of_solid 20 (show_number n) (show_number-nonempty n)
      (length-show_number n 19 (omega arith)) (all-show_number is_solid n (λ d k. ground arith))

-- The name of a job's type.
pub record IsName (t : Text) : Type 0 where
  pub nonempty : t ≢ []
  pub short : length t ≤ 100
  pub solid : all is_solid t ≡ true

pub IsPlain-of_IsName : (t : Text) → IsName t → IsPlain 128 t
IsPlain-of_IsName t h =
    IsPlain-of_IsTail 100 128 t (omega arith) (StartsClean-of_solid t h.solid)
      (IsTail-of_solid 100 t h.nonempty h.short h.solid)

StartsClean-prefix : (s t : Text) → s ≢ [] → StartsClean s → StartsClean (s ++ t)
StartsClean-prefix [] t h k = absurd (h refl)
StartsClean-prefix (c ∷ s) t h k = k

pub keyed-IsPlain : (t : Text) (n : ℕ) → IsName t → n < 2 ^ 64 → IsPlain 256 (keyed t n)
keyed-IsPlain t n h k =
    IsPlain-of_IsTail 121 256 (keyed t n) (omega arith)
      (StartsClean-prefix t _ h.nonempty (StartsClean-of_solid t h.solid))
      (IsTail-append 100 21 t _ h.short (printable_of_solid t h.solid)
        (IsTail-append 1 20 (codes ":") _ (omega arith) refl (number_tail n k)))

refresh_type-IsName : (t : MediaType) → IsName (refresh_type t)
refresh_type-IsName movie = record { nonempty = λ e. cc; short = omega arith; solid = refl }
refresh_type-IsName tv = record { nonempty = λ e. cc; short = omega arith; solid = refl }

module _ (p : Platform) where
  -- A job is created when its texts are plain and its payload is an object of bounded size.
  pub new_job-returns :
      (t : Text) (x : p.Value) (k : Text)
      → IsPlain 128 t
      → p.is_object x ≡ true
      → is_oversized (p.to_vec x) ≡ false
      → IsPlain 256 k
      → new_job p t (pos 1) x k ≡ ok (created_job p t (pos 1) x k)
  unfolding new_job validate_json_object
  new_job-returns t x k a b c d =
      rw ((validate_text_iff t 128 ValidationError.job_type).0.1 a)
        (rw b (rw c (rw ((validate_text_iff k 256 ValidationError.dedup_key).0.1 d))))

abbrev pub refresh_of : MediaType → RefreshPayload → IngestJob
refresh_of movie r = refresh_movie r
refresh_of tv r = refresh_tv r

module _ (p : Platform) (j : Json p.Value) (is : IsJson p.is_object j)
    (parse_url : Text → Option Url) (show_date : NaiveDate → Text) (digest_text : Text → Text) where
  -- The worker reads the job as the work meant, and gives it the key that the work asks for.
  pub record Carries (work : IngestJob) (job : NewJob p.Value p.DateTime) : Type 0 where
    pub parsed :
        parse_job
          (serde_reader j p.is_object parse_url)
          job.job_type
          job.payload_version
          job.payload
        ≡ ok work
    pub key : job.dedup_key ≡ dedup_key show_date digest_text work

  parse_refresh-payload :
      (make : RefreshPayload → IngestJob) (n : ℕ) (scope : RefreshScope)
      → 0 < n
      → n < 2 ^ 32
      → parse_refresh (serde_reader j p.is_object parse_url) make (refresh_payload p j n scope)
        ≡ ok (make (record { tmdb_id = n; scope = scope }))
  unfolding parse_refresh parse_payload validate_tmdb_id
  parse_refresh-payload make n scope h k =
      rw (is.is_object-object _) (rw (read_refresh-payload p j is n scope k) (ground arith))

  refresh-Carries :
      (t : MediaType) (n : ℕ) (scope : RefreshScope) (job : NewJob p.Value p.DateTime)
      → 0 < n
      → n < 2 ^ 32
      → job.job_type ≡ refresh_type t
      → job.payload_version ≡ pos 1
      → job.payload ≡ refresh_payload p j n scope
      → job.dedup_key ≡ keyed (refresh_type t) n
      → Carries (refresh_of t (record { tmdb_id = n; scope = scope })) job
  unfolding parse_job text_eq dedup_key
  refresh-Carries movie n scope job h k a b c d = record {
    parsed = rw (a, b, c) (parse_refresh-payload refresh_movie n scope h k);
    key = d;
  }
  refresh-Carries tv n scope job h k a b c d = record {
    parsed = rw (a, b, c) (parse_refresh-payload refresh_tv n scope h k);
    key = d;
  }

  valid_id : (n : ℕ) → 0 < n → n < 2 ^ 32 → (ltb n (2 ^ 32) && not (n == 0)) ≡ true
  valid_id n h k = ground arith

  new_refresh :
      (t : MediaType) (n : ℕ) (scope : RefreshScope)
      → n < 2 ^ 32
      → is_oversized (p.to_vec (refresh_payload p j n scope)) ≡ false
      → new_job p (refresh_type t) (pos 1) (refresh_payload p j n scope) (keyed (refresh_type t) n)
        ≡ ok (
            created_job p
              (refresh_type t)
              (pos 1)
              (refresh_payload p j n scope)
              (keyed (refresh_type t) n))
  new_refresh t n scope k small =
      new_job-returns p _ _ _ (IsPlain-of_IsName _ (refresh_type-IsName t)) (is.is_object-object _)
        small (keyed-IsPlain _ n (refresh_type-IsName t) (omega arith))

  abbrev refresh_result : MediaType → ℕ → ℤ → RefreshScope → NewJob p.Value p.DateTime
  refresh_result t n priority scope =
      record (created_job p (refresh_type t) (pos 1) (refresh_payload p j n scope)
        (keyed (refresh_type t) n)) { priority = priority }

  -- For an id of 1 to 2^32 - 1 and a priority of -1000 to 1000 the worker builds a refresh job, if
  -- the payload serialises to at most 64 KiB, which reads back as the refresh of that id and scope
  -- and has its key.
  pub refresh_job-Carries :
      (t : MediaType) (n : ℕ) (priority : ℤ) (scope : RefreshScope)
      → 0 < n
      → n < 2 ^ 32
      → leℤ (negsuc 999) priority && leℤ priority (pos 1000) ≡ true
      → is_oversized (p.to_vec (refresh_payload p j n scope)) ≡ false
      → (job : NewJob p.Value p.DateTime) × (refresh_job p j t n priority scope ≡ ok job)
        × Carries (refresh_of t (record { tmdb_id = n; scope = scope })) job
  unfolding refresh_job validate_refresh_tmdb_id with_priority
  refresh_job-Carries t n priority scope h k w small = (
    refresh_result t n priority scope,
    rw (valid_id n h k) (rw (new_refresh t n scope k small) (rw w)),
    refresh-Carries t n scope _ h k refl refl refl refl,
  )
