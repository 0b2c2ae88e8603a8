-- ===== src/Jobs/Model.antt =====
-- crates/tmdb-jobs/src/model.rs: the validated values of the job boundary.
-- serde_json's values and chrono's timestamps are not in the repository: their types and the four
-- functions that the code calls on them are the parameter `Platform`.
pub mod Plain
pub mod Builder
use tmdb_mirror.Prelude.{
  ℕ, ◌*◌, ◌≤◌, ◌≡◌, Bool, true, false, not, ◌||◌, ◌&&◌, List, [], ◌∷◌, Option, none, some, ltb, leb,
  ◌==◌, if◌then◌else◌, length, all, any, Text, codes, text_eq, is_control, is_ascii, trim, Result,
  ok, err, ◌>>=◌, ◌>>◌, reject_if, ℤ, pos, negsuc, leℤ,
}
use tmdb_mirror.Jobs.Error.{ValidationError, JobError, database}

abbrev pub max_job_type_chars : ℕ
max_job_type_chars = 128

abbrev pub max_dedup_key_chars : ℕ
max_dedup_key_chars = 256

abbrev pub max_worker_id_chars : ℕ
max_worker_id_chars = 128

abbrev pub max_cancel_message_chars : ℕ
max_cancel_message_chars = 1024

abbrev pub max_failure_message_chars : ℕ
max_failure_message_chars = 2048

abbrev pub max_json_bytes : ℕ
max_json_bytes = 65536

abbrev pub max_lease_micros : ℕ
max_lease_micros = 3600000000

abbrev pub max_retry_micros : ℕ
max_retry_micros = 604800000000

abbrev pub is_empty {ℓ} : {A : Type ℓ} → List A → Bool
is_empty [] = true
is_empty (x ∷ xs) = false

-- The test of `validate_text`.
unfoldable pub is_bad_text : Text → ℕ → Bool
unfolding is_ascii is_control trim text_eq
is_bad_text value max_chars =
    not (all is_ascii value)
    || is_empty (trim value)
    || ltb max_chars (length value)
    || any is_control value
    || not (text_eq value (trim value))

unfoldable pub validate_text : Text → ℕ → ValidationError → Result ValidationError (Unit {0})
unfolding is_bad_text
validate_text value max_chars error = if is_bad_text value max_chars then err error else ok tt

unfoldable pub validate_message : Text → ℕ → Result ValidationError (Unit {0})
unfolding validate_text
validate_message value max = validate_text value max ValidationError.message

unfoldable pub is_bad_failure_message : Text → Bool
unfolding is_control trim text_eq
is_bad_failure_message value =
    is_empty (trim value)
    || ltb max_failure_message_chars (length value)
    || any is_control value
    || not (text_eq value (trim value))

unfoldable pub validate_legacy_failure_message : Text → Result ValidationError (Unit {0})
unfolding is_bad_failure_message
validate_legacy_failure_message value =
    if is_bad_failure_message value then err ValidationError.failure_code else ok tt

-- The failure codes of the `matches!`, in its order.
abbrev pub canonical_failure_codes : List Text
canonical_failure_codes =
    codes "execution_failed"
    ∷ codes "upstream_unavailable"
    ∷ codes "upstream_unauthorized"
    ∷ codes "rate_limited"
    ∷ codes "invalid_payload"
    ∷ codes "lease_expired"
    ∷ codes "attempts_exhausted"
    ∷ codes "entity_not_ready"
    ∷ codes "export_storage"
    ∷ codes "database_unavailable"
    ∷ codes "export_queue_incomplete"
    ∷ codes "changes_queue_full"
    ∷ codes "missing_queue_full"
    ∷ []

unfoldable pub is_canonical_failure_code : Text → Bool
unfolding text_eq
is_canonical_failure_code value = any (text_eq value) canonical_failure_codes

unfoldable pub validate_failure_code : Text → Result ValidationError (Unit {0})
unfolding is_canonical_failure_code validate_legacy_failure_message
validate_failure_code value =
    if is_canonical_failure_code value then ok tt else validate_legacy_failure_message value

-- `WorkerId(String)`.
pub record WorkerId : Type 0 where
  pub value : Text

unfoldable pub worker_id_new : Text → Result ValidationError WorkerId
unfolding validate_text
worker_id_new value = do
  validate_text value max_worker_id_chars ValidationError.worker_id
  ok (record { value = value })

-- `JobId(Uuid)`: the 128-bit value of the UUID.
pub record JobId : Type 0 where
  pub uuid : ℕ

pub data JobStatus : Type 0 where
  queued running retry_wait succeeded dead_letter cancelled : JobStatus

unfoldable pub job_status_parse : Text → Result JobError JobStatus
unfolding text_eq
job_status_parse value =
    if text_eq value (codes "queued")
    then ok JobStatus.queued
    else if text_eq value (codes "running")
    then ok JobStatus.running
    else if text_eq value (codes "retry_wait")
    then ok JobStatus.retry_wait
    else if text_eq value (codes "succeeded")
    then ok JobStatus.succeeded
    else if text_eq value (codes "dead_letter")
    then ok JobStatus.dead_letter
    else if text_eq value (codes "cancelled")
    then ok JobStatus.cancelled
    else err database

-- What the code uses of serde_json and chrono.
pub record Platform : Type 1 where
  pub Value : Type 0
  pub is_object : Value → Bool
  pub to_vec : Value → Option (List ℕ)
  pub to_string : Value → Option Text
  pub empty_object : Value
  pub DateTime : Type 0
  pub year : DateTime → ℤ

-- The fields of `NewJob`, over the types of a platform.
pub record NewJob (Value : Type 0) (DateTime : Type 0) : Type 0 where
  pub job_type : Text
  pub payload_version : ℤ
  pub payload : Value
  pub priority : ℤ
  pub max_attempts : ℤ
  pub available_at : Option DateTime
  pub dedup_key : Text

-- `SubmitOutcome`.
pub record SubmitOutcome : Type 0 where
  pub job_id : JobId
  pub duplicate : Bool

-- `ClaimedJob`: what the worker that owns the lease receives.
pub record ClaimedJob (Value : Type 0) (DateTime : Type 0) : Type 0 where
  pub job_id : JobId
  pub job_type : Text
  pub payload_version : ℤ
  pub payload : Value
  pub attempts : ℤ
  pub max_attempts : ℤ
  pub lease_expires_at : DateTime
  pub cancellation_requested : Bool

-- `Job`: the sanitized persisted status.
pub record Job (DateTime : Type 0) : Type 0 where
  pub id : JobId
  pub status : JobStatus
  pub attempts : ℤ
  pub max_attempts : ℤ
  pub available_at : Option DateTime
  pub cancellation_requested : Bool
  pub error_message : Option Text
  pub created_at : DateTime
  pub updated_at : DateTime
  pub finished_at : Option DateTime

-- `FailureDisposition`.
pub data FailureDisposition (DateTime : Type 0) : Type 0 where
  retry_scheduled : DateTime → FailureDisposition DateTime
  dead_lettered cancelled : FailureDisposition DateTime

-- The size test on a payload; `none` is a serialisation error.
abbrev pub is_oversized : Option (List ℕ) → Bool
is_oversized none = true
is_oversized (some bytes) = ltb max_json_bytes (length bytes)

module _ (p : Platform) where
  open p use {Value, is_object, to_vec, empty_object, DateTime, year}

  unfoldable pub validate_json_object : Value → Result ValidationError (Unit {0})
  validate_json_object value =
      if not (is_object value) || is_oversized (to_vec value)
      then err ValidationError.json_object
      else ok tt

  unfoldable pub new_job : Text → ℤ → Value → Text → Result ValidationError (NewJob Value DateTime)
  new_job job_type payload_version payload dedup_key = do
    validate_text job_type max_job_type_chars ValidationError.job_type
    reject_if (leℤ payload_version (pos 0)) ValidationError.payload_version
    validate_json_object payload
    validate_text dedup_key max_dedup_key_chars ValidationError.dedup_key
    ok (record {
      job_type = job_type;
      payload_version = payload_version;
      payload = payload;
      priority = pos 0;
      max_attempts = pos 3;
      available_at = none;
      dedup_key = dedup_key;
    })

  unfoldable pub noop : Text → Result ValidationError (NewJob Value DateTime)
  noop dedup_key = new_job (codes "system.noop") (pos 1) empty_object dedup_key

  unfoldable pub with_priority :
      NewJob Value DateTime → ℤ → Result ValidationError (NewJob Value DateTime)
  with_priority job priority =
      if not (leℤ (negsuc 999) priority && leℤ priority (pos 1000))
      then err ValidationError.priority
      else ok (record job { priority = priority })

  unfoldable pub with_max_attempts :
      NewJob Value DateTime → ℤ → Result ValidationError (NewJob Value DateTime)
  with_max_attempts job max_attempts =
      if not (leℤ (pos 1) max_attempts && leℤ max_attempts (pos 100))
      then err ValidationError.max_attempts
      else ok (record job { max_attempts = max_attempts })

  unfoldable pub with_available_at :
      NewJob Value DateTime → DateTime → Result ValidationError (NewJob Value DateTime)
  with_available_at job available_at =
      if not (leℤ (pos 1) (year available_at) && leℤ (year available_at) (pos 9999))
      then err ValidationError.available_at
      else ok (record job { available_at = some available_at })
