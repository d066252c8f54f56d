-- ===== src/Producer/Retry.antt =====
-- `#recordFailure` and `#retryDelayMs` of vod-producer-coordinator.ts: how long a session waits after
-- a producer failed.
use vrrelay.Prelude.{
  ℕ, ◌+◌, ◌-◌, ◌*◌, ◌^◌, String, min, max, Bool, Option, none, some, Map, if◌then◌else◌,
}
use vrrelay.Prelude.Maps.{get, set}

pub record ProducerRetry : Type 0 where
  pub failures : ℕ
  pub not_before : ℕ

-- `failureRetryMinMs` and `failureRetryMaxMs`, their defaults filled in.
pub record RetryOptions : Type 0 where
  pub min_ms : ℕ
  pub max_ms : ℕ

unfoldable pub minimum : RetryOptions → ℕ
minimum o = max 1 o.min_ms

unfoldable pub maximum : RetryOptions → ℕ
unfolding minimum
maximum o = max (minimum o) o.max_ms

-- The wait after so many failures in a row.
unfoldable pub backoff : RetryOptions → ℕ → ℕ
backoff o failures = min (maximum o) (minimum o * 2 ^ min (failures - 1) 10)

abbrev pub failures_of : Option ProducerRetry → ℕ
failures_of none = 0
failures_of (some r) = r.failures

unfoldable pub record_failure :
    RetryOptions → Map ProducerRetry → String → Bool → ℕ → Map ProducerRetry
record_failure o retries session_id published_any now =
    let failures = if published_any then 1 else failures_of (get session_id retries) + 1 in
    set session_id (record { failures = failures; not_before = now + backoff o failures }) retries

abbrev pub not_before_of : Option ProducerRetry → ℕ
not_before_of none = 0
not_before_of (some r) = r.not_before

unfoldable pub retry_delay : Map ProducerRetry → String → ℕ → ℕ
retry_delay retries session_id now = not_before_of (get session_id retries) - now
