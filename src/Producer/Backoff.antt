-- ===== src/Producer/Backoff.antt =====
-- The waits between attempts.
use vrrelay.Prelude.{
  ℕ, zero, suc, ◌+◌, ◌-◌, ◌*◌, ◌^◌, ◌≤◌, String, min, false, none, some, Map, List, [], ◌∷◌, length,
  ◌≡◌, refl, ap, arith, eq_refl,
}
use native.Mathlib.Nat.{pow-suc, zero-add, suc-add}
use vrrelay.Prelude.Maps.{get, get-set}
use vrrelay.Producer.Retry.{
  ProducerRetry, RetryOptions, minimum, maximum, backoff, failures_of, record_failure, retry_delay,
}

-- Failures at the given times, none of which published anything.
unfoldable pub fail_at : RetryOptions → Map ProducerRetry → String → List ℕ → Map ProducerRetry
fail_at o retries s [] = retries
fail_at o retries s (now ∷ later) = fail_at o (record_failure o retries s false now) s later

failures-record :
    (o : RetryOptions) (m : Map ProducerRetry) (s : String) (now : ℕ)
    → get s (record_failure o m s false now)
      ≡ some (record {
        failures = failures_of (get s m) + 1;
        not_before = now + backoff o (failures_of (get s m) + 1);
      })
unfolding record_failure
failures-record o m s now = rw (get-set s s _ m, eq_refl s) refl

failures-fail_at :
    (o : RetryOptions) (m : Map ProducerRetry) (s : String) (times : List ℕ)
    → failures_of (get s (fail_at o m s times)) ≡ failures_of (get s m) + length times
unfolding fail_at
failures-fail_at o m s [] = omega arith
failures-fail_at o m s (now ∷ later) = omega (
  arith,
  failures-fail_at o (record_failure o m s false now) s later,
  ap failures_of (failures-record o m s now),
)

pow_pos : (n : ℕ) → 1 ≤ 2 ^ n
pow_pos zero = omega arith
pow_pos (suc n) = omega (arith, pow_pos n, pow-suc 2 n)

pow_step : (m d : ℕ) → 2 ^ m ≤ 2 ^ (d + m)
pow_step m zero = rw zero-add (omega arith)
pow_step m (suc d) = rw suc-add (omega (arith, pow_step m d, pow-suc 2 (d + m)))

pow_mono : (m n : ℕ) → m ≤ n → 2 ^ m ≤ 2 ^ n
pow_mono m n h = let e : n ≡ (n - m) + m = omega arith in rw e (pow_step m (n - m))

mul_mono : (s a b : ℕ) → a ≤ b → s * a ≤ s * b
mul_mono s a b h = grind arith

-- The wait is never below the minimum nor above the maximum, and does not shrink with another
-- failure.
pub backoff_bounds :
    (o : RetryOptions) (k : ℕ)
    → (minimum o ≤ backoff o k) × (backoff o k ≤ maximum o) × (backoff o k ≤ backoff o (k + 1))
unfolding backoff maximum
backoff_bounds o k =
    let low = mul_mono (minimum o) 1 (2 ^ min (k - 1) 10) (pow_pos (min (k - 1) 10)) in
    let up =
      mul_mono (minimum o) (2 ^ min (k - 1) 10) (2 ^ min (k + 1 - 1) 10)
        (pow_mono (min (k - 1) 10) (min (k + 1 - 1) 10) (omega arith)) in
    (omega arith, omega arith, omega arith)

-- After any failures in a row in which nothing was published, another such failure at the time `now`
-- makes the session wait for the minimum doubled once for each former failure, ten times at most,
-- and capped by the maximum.
pub retry_delay-record_failure :
    (o : RetryOptions) (m : Map ProducerRetry) (s : String) (times : List ℕ) (now : ℕ)
    → get s m ≡ none
    → retry_delay (record_failure o (fail_at o m s times) s false now) s now
      ≡ min (maximum o) (minimum o * 2 ^ min (length times) 10)
unfolding retry_delay backoff
retry_delay-record_failure o m s times now fresh =
    let before = failures-fail_at o m s times in
    let start = ap failures_of fresh in
    let count : failures_of (get s (fail_at o m s times)) + 1 - 1 ≡ length times =
      omega (arith, before, start) in
    rw (failures-record o (fail_at o m s times) s now, count) (omega arith)
