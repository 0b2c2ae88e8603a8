-- ===== src/Upstream/Policy/Validity.antt =====
-- Which policies the constructors accept, and that the defaults are among them.
use tmdb_mirror.Prelude.{ℕ, ◌≤◌, ◌<◌, ◌≡◌, ◌↔◌, ok, arith}
use tmdb_mirror.Upstream.Policy.{
  RateLimitPolicy, rate_limit_try_new, RetryPolicy, retry_try_new, conservative,
}

pub record IsRate (r : RateLimitPolicy) : Type 0 where
  pub rate : (0 < r.requests_per_second) × (r.requests_per_second ≤ 40)
  pub concurrency : (0 < r.max_concurrency) × (r.max_concurrency ≤ 256)

pub record IsRetry (p : RetryPolicy) : Type 0 where
  pub attempts : (0 < p.max_attempts) × (p.max_attempts ≤ 8)
  pub timeout : 0 < p.request_timeout
  pub backoff : (0 < p.backoff_base) × (p.backoff_base ≤ p.backoff_max)
  pub response : (0 < p.max_response_bytes) × (p.max_response_bytes ≤ 67108864)

IsRate-iff :
    (requests_per_second max_concurrency : ℕ) (r : RateLimitPolicy)
    → (rate_limit_try_new requests_per_second max_concurrency ≡ ok r)
      ↔ (r
          ≡ record { requests_per_second = requests_per_second; max_concurrency = max_concurrency })
        × IsRate r
unfolding rate_limit_try_new
IsRate-iff rate concurrency r = (λ e. ground arith, λ v. ground arith)

IsRetry-iff :
    (max_attempts : ℕ) (rate_limit : RateLimitPolicy)
    (request_timeout backoff_base backoff_max max_response_bytes : ℕ) (p : RetryPolicy)
    → (retry_try_new max_attempts rate_limit request_timeout backoff_base backoff_max
          max_response_bytes
        ≡ ok p)
      ↔ (p ≡ record {
        max_attempts = max_attempts;
        rate_limit = rate_limit;
        request_timeout = request_timeout;
        backoff_base = backoff_base;
        backoff_max = backoff_max;
        max_response_bytes = max_response_bytes;
      })
        × IsRetry p
unfolding retry_try_new
IsRetry-iff a l t b m n p = (λ e. ground arith, λ v. ground arith)

-- For all arguments, the two constructors return a policy exactly if it has these arguments and is
-- within the documented bounds; all others are refused. The defaults of the client, which skip the
-- constructors, are within the bounds.
pub policies_iff :
    ((requests_per_second max_concurrency : ℕ) (r : RateLimitPolicy)
      → (rate_limit_try_new requests_per_second max_concurrency ≡ ok r)
        ↔ (r ≡ record {
          requests_per_second = requests_per_second;
          max_concurrency = max_concurrency;
        })
          × IsRate r)
    × ((max_attempts : ℕ) (rate_limit : RateLimitPolicy)
          (request_timeout backoff_base backoff_max max_response_bytes : ℕ) (p : RetryPolicy)
        → (retry_try_new max_attempts rate_limit request_timeout backoff_base backoff_max
              max_response_bytes
            ≡ ok p)
          ↔ (p ≡ record {
            max_attempts = max_attempts;
            rate_limit = rate_limit;
            request_timeout = request_timeout;
            backoff_base = backoff_base;
            backoff_max = backoff_max;
            max_response_bytes = max_response_bytes;
          })
            × IsRetry p)
    × IsRetry conservative
    × IsRate conservative.rate_limit
unfolding conservative
policies_iff = (IsRate-iff, IsRetry-iff, ground arith, ground arith)
