-- ===== src/Jobs/Worker/Config.antt =====
-- Which worker configurations `WorkerConfig::try_new` accepts, and that the repository accepts them.
use tmdb_mirror.Prelude.{ℕ, ◌*◌, ◌/◌, ◌%◌, ◌≤◌, ◌<◌, ◌≡◌, ◌↔◌, ok, arith}
use tmdb_mirror.Jobs.Model.{WorkerId, max_lease_micros}
use tmdb_mirror.Jobs.Repository.{duration_microseconds}
use tmdb_mirror.Jobs.Worker.{WorkerConfig, try_new, max_lease_duration}

-- A worker's configuration is accepted exactly if every interval is a positive whole number of
-- microseconds, the heartbeat is shorter than the lease, and the lease is at most an hour; what is
-- accepted is kept unchanged.
pub try_new_iff :
    (w : WorkerId) (lease beat idle : ℕ) (c : WorkerConfig)
    → (try_new w lease beat idle ≡ ok c) ↔ (
        ((0 < lease) × (lease ≤ max_lease_duration) × (lease % 1000 ≡ 0))
        × ((0 < beat) × (beat < lease) × (beat % 1000 ≡ 0))
        × ((0 < idle) × (idle % 1000 ≡ 0))
        × (record {
          worker_id = w;
          lease_duration = lease;
          heartbeat_interval = beat;
          idle_poll_interval = idle;
        }
            ≡ c))
unfolding try_new
try_new_iff w lease beat idle c = ground arith

-- The lease of every accepted configuration is accepted by `claim` and `heartbeat`, as its exact
-- number of microseconds.
pub try_new-duration :
    (w : WorkerId) (lease beat idle : ℕ) (c : WorkerConfig)
    → try_new w lease beat idle ≡ ok c
    → (duration_microseconds c.lease_duration max_lease_micros ≡ ok (lease / 1000))
      × (lease ≡ lease / 1000 * 1000)
unfolding try_new duration_microseconds
try_new-duration w lease beat idle c h = ground arith
