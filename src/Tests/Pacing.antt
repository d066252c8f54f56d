-- ===== src/Tests/Pacing.antt =====
-- Waits, rates and places at concrete numbers.
use vrrelay.Prelude.{ℕ, ◌*◌, ◌^◌, ◌≤◌, ◌≡◌, refl, min, length, false, some, List, [], ◌∷◌, arith}
use vrrelay.Prelude.Maps.{get, set}
use vrrelay.Producer.Watermarks.{Rate, Pacer, catchup_rate, set_rate}
use vrrelay.Producer.Pacing.{catchup_rate-set_rate}
use vrrelay.Producer.Retry.{RetryOptions, minimum, maximum, backoff, record_failure, retry_delay}
use vrrelay.Producer.Backoff.{fail_at, backoff_bounds, retry_delay-record_failure}
use vrrelay.Producer.Admission.{Limits, reserve, hand_over, total, active_for}
use vrrelay.Producer.Capacity.{
  IsAdmitted, Reach, start, next, reserves, hands_over, Reach-IsAdmitted,
}

-- The default maximum, 1.25, and the rates for a buffer of 45 and of 50 seconds.
abbrev fastest : Rate
fastest = record { num = 5; den = 4 }

abbrev pacer : Pacer
pacer = record { maximum = fastest; rate = fastest }

catchup_rate-set_rate_example :
    (r : Rate) × (catchup_rate 45000 30000 60000 fastest ≡ some r)
    × (set_rate pacer r ≡ some (record pacer { rate = r }))
catchup_rate-set_rate_example = catchup_rate-set_rate pacer 45000 30000 60000 refl

-- A second to begin with, half a minute at most.
abbrev waits : RetryOptions
waits = record { min_ms = 1000; max_ms = 30000 }

backoff_bounds_example :
    (minimum waits ≤ backoff waits 3)
    × (backoff waits 3 ≤ maximum waits)
    × (backoff waits 3 ≤ backoff waits 4)
backoff_bounds_example = backoff_bounds waits 3

abbrev times : List ℕ
times = 10 ∷ 2000 ∷ []

retry_delay-record_failure_example :
    retry_delay (record_failure waits (fail_at waits [] "s" times) "s" false 5000) "s" 5000
    ≡ min (maximum waits) (minimum waits * 2 ^ min (length times) 10)
unfolding get
retry_delay-record_failure_example = retry_delay-record_failure waits [] "s" times 5000 refl

abbrev limits : Limits
limits = record { all = 2; per_provider = 1 }

reached :
    Reach limits
      (hand_over (reserve limits (record { active = []; reservations = [] }) "p").0 "s" "p")
unfolding reserve get set total active_for
reached = next (next start (reserves "p")) (hands_over "s" "p" (omega arith))

Reach-IsAdmitted_example :
    IsAdmitted limits
      (hand_over (reserve limits (record { active = []; reservations = [] }) "p").0 "s" "p")
Reach-IsAdmitted_example = Reach-IsAdmitted limits _ reached
