-- ===== src/Tests/Jobs.antt =====
-- The job queue's client at concrete inputs.
use tmdb_mirror.Prelude.{
  ℕ, suc, ◌*◌, ◌<◌, ◌≤◌, ◌≡◌, refl, ◌≢◌, ◌↔◌, true, false, List, [], ◌∷◌, none, some, codes, ok,
  err, pos, negsuc, arith, length,
}
use tmdb_mirror.Jobs.Error.{ValidationError, database, validation}
use tmdb_mirror.Jobs.Model.{NewJob, validate_text, job_status_parse, JobStatus, SubmitOutcome}
use tmdb_mirror.Jobs.Model.Plain.{IsPlain, validate_text_iff}
use tmdb_mirror.Jobs.Model.Builder.{IsValid, Built, Built-iff}
use tmdb_mirror.Jobs.Repository.{
  duration_microseconds, request, submit_loop, is_serialization_failure, submit,
}
use tmdb_mirror.Jobs.Repository.Durations.{duration_microseconds_iff}
use tmdb_mirror.Jobs.Repository.Submission.{Decided, submit-Decided}
use tmdb_mirror.Jobs.Repository.Batch.{submit_many}
use tmdb_mirror.Jobs.Repository.Bulk.{length-submit_many}
use tmdb_mirror.Jobs.Worker.{WorkerConfig, try_new, execute_claimed, repository, Race, finished}
use tmdb_mirror.Jobs.Worker.Config.{try_new-duration}
use tmdb_mirror.Jobs.Worker.Recording.{perform, recording, execute_claimed-perform}
use tmdb_mirror.Jobs.Worker.Loop.{Round, gate_acquired, run, failed, heartbeat_task}
use tmdb_mirror.Jobs.Worker.Running.{run-ne-database}
use tmdb_mirror.Jobs.Worker.Heartbeat.{Beats, heartbeat_task-Beats}
use tmdb_mirror.Jobs.Worker.{record_outcome}
use tmdb_mirror.Upstream.Client.{rate_limit}
use tmdb_mirror.Ingest.Errors.{map_upstream_error}
use tmdb_mirror.Ingest.Errors.Recorded.{IsRecordable, map_upstream_error-IsRecordable}
use tmdb_mirror.Tests.Fixtures.{platform, counting, claimed, job_id}

-- Texts with white space at an end, with a line feed and with a letter outside ASCII are refused.
texts :
    (validate_text (codes "worker-1") 128 ValidationError.worker_id ≡ ok tt)
    × (validate_text (codes " worker") 128 ValidationError.worker_id
        ≡ err ValidationError.worker_id)
    × (validate_text (10 ∷ 65 ∷ []) 128 ValidationError.worker_id ≡ err ValidationError.worker_id)
    × (validate_text (65 ∷ 233 ∷ []) 128 ValidationError.worker_id ≡ err ValidationError.worker_id)
unfolding validate_text
texts = (refl, refl, refl, refl)

statuses :
    (job_status_parse (codes "retry_wait") ≡ ok JobStatus.retry_wait)
    × (job_status_parse (codes "Queued") ≡ err database)
unfolding job_status_parse
statuses = (refl, refl)

validate_text_iff_example :
    ((validate_text (codes "noop") 128 ValidationError.job_type ≡ ok tt)
      ↔ IsPlain 128 (codes "noop"))
    × ((validate_text (codes "noop") 128 ValidationError.job_type ≡ err ValidationError.job_type)
        ↔ (¬ IsPlain 128 (codes "noop")))
validate_text_iff_example = validate_text_iff (codes "noop") 128 ValidationError.job_type

abbrev built : NewJob ℕ ℕ
built = record {
  job_type = codes "noop";
  payload_version = pos 1;
  payload = 0;
  priority = negsuc 4;
  max_attempts = pos 3;
  available_at = some 2026;
  dedup_key = codes "k";
}

Built-iff_example : Built platform built ↔ IsValid platform built
Built-iff_example = Built-iff platform built

duration_microseconds_iff_example :
    (duration_microseconds 30000000000 3600000000 ≡ ok 30000000)
    ↔ ((◌≡◌ {A = ℕ} 30000000000 (30000000 * 1000)) × (0 < 30000000) × (30000000 ≤ 3600000000))
duration_microseconds_iff_example =
    duration_microseconds_iff 30000000000 3600000000 30000000 (omega arith)

submit-Decided_example :
    (k : ℕ) × Decided platform counting
      (request platform job_id built (codes "{}"))
      3
      0
      k
      (submit platform counting job_id built 0).0
      (submit platform counting job_id built 0).1
submit-Decided_example = submit-Decided platform counting job_id built (codes "{}") 0 refl

-- Two failed attempts and a third that succeeds.
third_attempt :
    submit platform counting job_id built 0
    ≡ (ok (record { job_id = job_id; duplicate = false }), 3)
unfolding submit submit_loop is_serialization_failure
third_attempt = refl

length-submit_many_example :
    ((outs : List SubmitOutcome)
      → (submit_many platform counting (λ a i. job_id) true (built ∷ []) 0).0 ≡ ok outs
      → (length outs ≡ 1) × (1 ≤ 500))
    × (500 < 1
        → submit_many platform counting (λ a i. job_id) true (built ∷ []) 0
          ≡ (err (validation ValidationError.batch_size), 0))
length-submit_many_example =
    length-submit_many platform counting (λ a i. job_id) true (built ∷ []) 0

abbrev config : WorkerConfig
config = record {
  worker_id = record { value = codes "worker-1" };
  lease_duration = 30000000000;
  heartbeat_interval = 10000000000;
  idle_poll_interval = 1000000000;
}

config_accepted :
    try_new (record { value = codes "worker-1" }) 30000000000 10000000000 1000000000 ≡ ok config
unfolding try_new
config_accepted = refl

try_new-duration_example :
    (duration_microseconds config.lease_duration 3600000000 ≡ ok 30000000)
    × (◌≡◌ {A = ℕ} 30000000000 (30000000 * 1000))
try_new-duration_example =
    try_new-duration (record { value = codes "worker-1" }) 30000000000 10000000000 1000000000 config
      config_accepted

-- A terminal failure at state 5 is dead-lettered.
abbrev terminal : Race ℕ
terminal =
    finished
      (some (err (record { code = codes "invalid_payload"; retry_delay = 0; terminal = true })))

execute_claimed-perform_example :
    execute_claimed platform counting config claimed terminal suc 4
    ≡ perform platform counting config claimed (recording platform counting config false terminal) 5
execute_claimed-perform_example =
    execute_claimed-perform platform counting config claimed terminal suc 4

abbrev quiet : Round ℕ ℕ
quiet = record {
  gate = gate_acquired;
  claim_cancelled = false;
  slept = true;
  race = terminal;
  before = λ s. s;
  during = λ s. s;
}

run-ne-database_example :
    (run platform counting config none (quiet ∷ quiet ∷ []) 3).0 ≢ failed (repository database)
run-ne-database_example =
    run-ne-database platform counting config none (quiet ∷ quiet ∷ []) 3 (λ e. cc, (λ e. cc, tt))

heartbeat_task-Beats_example :
    Beats platform counting config job_id
      (suc ∷ suc ∷ [])
      0
      (heartbeat_task platform counting config job_id (suc ∷ suc ∷ []) 0).0
heartbeat_task-Beats_example =
    heartbeat_task-Beats platform counting config job_id (suc ∷ suc ∷ []) 0

map_upstream_error_example :
    (IsRecordable (map_upstream_error (rate_limit (some 7)))
      ↔ (rate_limit (some 7) ≢ rate_limit (some 0)))
    × (record_outcome platform counting config claimed
          (err (map_upstream_error (rate_limit (some 0))))
          4
        ≡ (err (repository (validation ValidationError.duration)), 4))
map_upstream_error_example =
    map_upstream_error-IsRecordable platform counting config (rate_limit (some 7)) claimed 4
