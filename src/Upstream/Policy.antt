-- ===== src/Upstream/Policy.antt =====
-- crates/tmdb-upstream/src/policy.rs: rate limits, retry bounds and the gate that spaces requests.
-- Durations and instants are in nanoseconds; unsigned machine integers are numbers below their
-- bound, and `Option` stands for the checked operations.
pub mod Backoff
pub mod Validity
pub mod Spacing
use tmdb_mirror.Prelude.{
  ℕ, ◌+◌, ◌-◌, ◌*◌, ◌/◌, ◌^◌, ◌≡◌, Bool, true, false, ◌||◌, List, [], ◌∷◌, Option, none, some, ltb,
  ◌==◌, if◌then◌else◌, min, max, Result, ok, err, ◌>>=◌, ◌>>◌, reject_if,
}

pub data PolicyError : Type 0 where
  zero_rate zero_concurrency rate_above_documented_limit concurrency_too_large : PolicyError
  zero_attempts attempts_too_large zero_duration backoff_order response_limit : PolicyError
  limiter_closed : PolicyError

abbrev pub max_documented_requests_per_second : ℕ
max_documented_requests_per_second = 40

pub record RateLimitPolicy : Type 0 where
  pub requests_per_second : ℕ
  pub max_concurrency : ℕ

unfoldable pub rate_limit_try_new : ℕ → ℕ → Result PolicyError RateLimitPolicy
rate_limit_try_new requests_per_second max_concurrency = do
  reject_if (requests_per_second == 0) zero_rate
  reject_if (max_concurrency == 0) zero_concurrency
  reject_if (ltb max_documented_requests_per_second requests_per_second) rate_above_documented_limit
  reject_if (ltb 256 max_concurrency) concurrency_too_large
  ok (record { requests_per_second = requests_per_second; max_concurrency = max_concurrency })

-- `nonzero_u32_or_min` and `nonzero_u8_or_min`.
unfoldable pub nonzero_or_min : ℕ → ℕ
nonzero_or_min value = if value == 0 then 1 else value

unfoldable pub rate_limit_default : RateLimitPolicy
unfolding nonzero_or_min
rate_limit_default = record {
  requests_per_second = nonzero_or_min 35;
  max_concurrency = nonzero_or_min 20;
}

pub record RetryPolicy : Type 0 where
  pub max_attempts : ℕ
  pub rate_limit : RateLimitPolicy
  pub request_timeout : ℕ
  pub backoff_base : ℕ
  pub backoff_max : ℕ
  pub max_response_bytes : ℕ

unfoldable pub retry_try_new : ℕ → RateLimitPolicy → ℕ → ℕ → ℕ → ℕ → Result PolicyError RetryPolicy
retry_try_new max_attempts rate_limit request_timeout backoff_base backoff_max max_response_bytes =
    do
      reject_if (max_attempts == 0) zero_attempts
      reject_if (ltb 8 max_attempts) attempts_too_large
      reject_if ((request_timeout == 0) || (backoff_base == 0) || (backoff_max == 0)) zero_duration
      reject_if (ltb backoff_max backoff_base) backoff_order
      reject_if ((max_response_bytes == 0) || ltb (64 * 1024 * 1024) max_response_bytes)
          response_limit
      ok (record {
        max_attempts = max_attempts;
        rate_limit = rate_limit;
        request_timeout = request_timeout;
        backoff_base = backoff_base;
        backoff_max = backoff_max;
        max_response_bytes = max_response_bytes;
      })

unfoldable pub conservative : RetryPolicy
unfolding rate_limit_default nonzero_or_min
conservative = record {
  max_attempts = nonzero_or_min 4;
  rate_limit = rate_limit_default;
  request_timeout = 30000000000;
  backoff_base = 250000000;
  backoff_max = 15000000000;
  max_response_bytes = 16 * 1024 * 1024;
}

-- `Duration::checked_mul`: the seconds of the product must fit in 64 bits.
unfoldable pub checked_mul : ℕ → ℕ → Option ℕ
checked_mul d k = if ltb (d * k) (2 ^ 64 * 1000000000) then some (d * k) else none

abbrev at_most : ℕ → Option ℕ → ℕ
at_most most none = most
at_most most (some delay) = min delay most

unfoldable pub backoff : RetryPolicy → ℕ → ℕ
unfolding checked_mul
backoff policy attempt =
    let exponent = min (attempt - 1) 7 in
    at_most policy.backoff_max (checked_mul policy.backoff_base (2 ^ exponent))

-- `RequestGate`, without its semaphore, which is tokio's.
pub record RequestGate : Type 0 where
  pub next_slot : ℕ
  pub slot_interval : ℕ

unfoldable pub gate_new : RateLimitPolicy → ℕ → RequestGate
gate_new policy now = record {
  next_slot = now;
  slot_interval = max (1000000000 / policy.requests_per_second) 1;
}

-- An instant later than every `Instant` of the platform.
module _ (instant_bound : ℕ) where
  -- `checked_add(..).unwrap_or_else(Instant::now)`, with a second reading of the clock.
  unfoldable pub add_or_now : ℕ → ℕ → ℕ → ℕ
  add_or_now scheduled interval now' =
      if ltb (scheduled + interval) instant_bound then scheduled + interval else now'

  -- The section under the lock: the new gate and the delay before the request starts.
  unfoldable pub acquire : ℕ → ℕ → RequestGate → RequestGate × ℕ
  unfolding add_or_now
  acquire now now' gate =
      let scheduled = max gate.next_slot now in
      (record gate { next_slot = add_or_now scheduled gate.slot_interval now' }, scheduled - now)
