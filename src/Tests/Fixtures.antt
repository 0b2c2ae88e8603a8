-- ===== src/Tests/Fixtures.antt =====
-- A platform whose JSON values are numbers (0 is the empty object, odd ones are no objects) and a
-- database that counts its queries.
use tmdb_mirror.Prelude.{
  ℕ, suc, ◌%◌, true, false, [], ◌∷◌, none, some, ltb, ◌==◌, if◌then◌else◌, codes, Text, ok, err,
  pos, map,
}
use tmdb_mirror.Jobs.Model.{Platform, JobId, ClaimedJob}
use tmdb_mirror.Jobs.Repository.{SqlxError, Database, JobRow}

abbrev pub platform : Platform
platform = record {
  Value = ℕ;
  is_object = λ v. v % 2 == 0;
  to_vec = λ v. some (b'{' ∷ b'}' ∷ []);
  to_string = λ v. some (codes "{}");
  empty_object = 0;
  DateTime = ℕ;
  year = λ t. pos t;
}

abbrev pub failure : Text → SqlxError
failure code = record { code = some code }

abbrev pub job_id : JobId
job_id = record { uuid = 7 }

abbrev pub claimed : ClaimedJob ℕ ℕ
claimed = record {
  job_id = job_id;
  job_type = codes "system.noop";
  payload_version = pos 1;
  payload = 0;
  attempts = pos 1;
  max_attempts = pos 3;
  lease_expires_at = 60;
  cancellation_requested = false;
}

abbrev pub row : JobRow ℕ
row = record {
  id = job_id;
  status = codes "succeeded";
  attempts = pos 1;
  max_attempts = pos 3;
  available_at = none;
  cancellation_requested = false;
  error_message = none;
  created_at = 1;
  updated_at = 2;
  finished_at = some 2;
}

-- Counts its queries; the first two submissions fail to serialise, every fourth state is an outage.
abbrev pub counting : Database ℕ ℕ
counting = record {
  State = ℕ;
  submit_job = λ r s. (
    if ltb s 2
        then err (failure (codes "40001"))
        else ok (record { job_id = job_id; was_duplicate = false }),
    suc s,
  );
  submit_jobs =
      λ rs s. (ok (map (λ r. record { job_id = job_id; was_duplicate = true }) rs), suc s);
  claim_job = λ w l s. (if s == 3 then err (failure (codes "57P01")) else ok (some claimed), suc s);
  claim_job_for_types = λ w l ts s. (err (failure (codes "57P01")), suc s);
  heartbeat_job = λ j w l s. (if ltb s 4 then ok 60 else err (failure (codes "P0001")), suc s);
  job_cancellation_requested = λ j w s. (ok (some false), suc s);
  complete_job = λ j w v s. (ok (codes "succeeded"), suc s);
  fail_job = λ j w c d s.
      (ok (record { disposition = codes "retry_scheduled"; next_available_at = 90 }), suc s);
  dead_letter_job = λ j w c s.
      (ok (record { disposition = codes "dead_lettered"; next_available_at = 0 }), suc s);
  request_job_cancel = λ j m s. (ok (codes "running", true), suc s);
  job_status = λ j s. (ok (some row), suc s);
}
