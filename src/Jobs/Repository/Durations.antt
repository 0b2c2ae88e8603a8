-- ===== src/Jobs/Repository/Durations.antt =====
-- Which durations cross the boundary to the database.
use tmdb_mirror.Prelude.{ℕ, ◌*◌, ◌≤◌, ◌<◌, ◌≡◌, ◌↔◌, ok, arith}
use tmdb_mirror.Jobs.Repository.{duration_microseconds}

-- A duration is accepted exactly if it is a whole number of microseconds between 1 and the maximum,
-- and the result is that number; here for a maximum that an `i64` holds.
pub duration_microseconds_iff :
    (d maximum us : ℕ)
    → maximum < 9223372036854775808
    → (duration_microseconds d maximum ≡ ok us) ↔ ((d ≡ us * 1000) × (0 < us) × (us ≤ maximum))
unfolding duration_microseconds
duration_microseconds_iff d maximum us h = ground arith
