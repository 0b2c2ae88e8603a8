-- ===== src/Upstream/Policy/Backoff.antt =====
-- The delays between attempts.
use tmdb_mirror.Prelude.{ℕ, zero, suc, ◌-◌, ◌*◌, ◌^◌, ◌≤◌, ◌<◌, ◌≡◌, refl, min, arith}
use native.Mathlib.Nat.{pow-suc}
use tmdb_mirror.Upstream.Policy.{RetryPolicy, backoff}

-- The bounds of a validated policy that the delays rest on.
pub record HasOrder (policy : RetryPolicy) : Type 0 where
  pub positive : 0 < policy.backoff_base
  pub ordered : policy.backoff_base ≤ policy.backoff_max
  pub representable : policy.backoff_max < 2 ^ 64 * 1000000000

pow_pos : (n : ℕ) → 0 < 2 ^ n
pow_pos zero = omega arith
pow_pos (suc n) = rw pow-suc (omega (arith, pow_pos n))

-- Without the checked multiplication: the delay doubles until it meets the maximum.
backoff-eq-min :
    (policy : RetryPolicy) (attempt : ℕ)
    → HasOrder policy
    → backoff policy attempt
      ≡ min (policy.backoff_base * 2 ^ min (attempt - 1) 7) policy.backoff_max
unfolding backoff
backoff-eq-min policy attempt h = ground arith

min-double : (x m : ℕ) → min (2 * x) m ≡ min (2 * min x m) m
min-double x m = omega arith

pow-min : (n : ℕ) → n < 7 → 2 ^ min (suc (suc n) - 1) 7 ≡ 2 * 2 ^ min (suc n - 1) 7
pow-min n h =
    let high : min (suc (suc n) - 1) 7 ≡ suc n = omega arith in
    let low : min (suc n - 1) 7 ≡ n = omega arith in rw (high, low) (rw pow-suc (omega arith))

-- Under a validated policy the delay before each retry lies between the base and the maximum, the
-- first is the base, each of the next seven is twice the one before unless the maximum is less, and
-- from the eighth on it stays the same.
pub backoff_lem :
    (policy : RetryPolicy)
    → HasOrder policy
    → ((a : ℕ) → (policy.backoff_base ≤ backoff policy a) × (backoff policy a ≤ policy.backoff_max))
      × (backoff policy 1 ≡ policy.backoff_base)
      × ((n : ℕ)
          → n < 7
          → backoff policy (suc (suc n)) ≡ min (2 * backoff policy (suc n)) policy.backoff_max)
      × ((a : ℕ) → 8 ≤ a → backoff policy a ≡ backoff policy 8)
backoff_lem policy h = (
  λ a. bounds a,
  omega (arith, backoff-eq-min policy 1 h),
  λ n lt. doubles n lt,
  λ a le.
      rw (backoff-eq-min policy a h, backoff-eq-min policy 8 h)
        (let last : min (a - 1) 7 ≡ 7 = omega arith in rw last refl),
)
  where
    bounds :
        (a : ℕ) → (policy.backoff_base ≤ backoff policy a) × (backoff policy a ≤ policy.backoff_max)
    bounds a = rw (backoff-eq-min policy a h) (grind (arith, pow_pos (min (a - 1) 7), h.ordered))

    doubles :
        (n : ℕ)
        → n < 7
        → backoff policy (suc (suc n)) ≡ min (2 * backoff policy (suc n)) policy.backoff_max
    doubles n lt =
        rw (backoff-eq-min policy (suc (suc n)) h, backoff-eq-min policy (suc n) h)
          (rw (pow-min n lt) (omega arith))
