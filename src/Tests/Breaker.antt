-- ===== src/Tests/Breaker.antt =====
-- gateway/breaker.py at concrete times, in seconds.
use agent_roi_console.Common.{
  ◌≤◌, ◌≡◌, refl, ◌↔◌, true, false, [], ◌∷◌, arith, map, length, keep_if,
}
use agent_roi_console.Float.Scaled.{ℤ, pos, scaled, scaled-IsMonotone}
use agent_roi_console.Gateway.Breaker.{
  closed, opened, half_open, CircuitBreaker, asks, fails, new, allow, record_success,
  record_failure, run, grants, drop_stale, step,
}
use agent_roi_console.Gateway.Breaker.Window.{recent, record_failure-opens_iff, new-burst}
use agent_roi_console.Gateway.Breaker.History.{IsValid, run-new-IsValid}
use agent_roi_console.Gateway.Breaker.Trial.{grants-le-one, trial_outcome}

-- Three failures in 30 seconds open it for 10 seconds.
abbrev new_breaker : CircuitBreaker ℤ
new_breaker = record {
  failure_threshold = 3;
  window_s = pos 30;
  half_open_after_s = pos 10;
  failures = [];
  state = closed;
  opened_at = pos 0;
  trial_in_flight = false;
}

abbrev open_breaker : CircuitBreaker ℤ
open_breaker = record new_breaker { state = opened; opened_at = pos 100 }

abbrev trial_breaker : CircuitBreaker ℤ
trial_breaker = record new_breaker { state = half_open; trial_in_flight = true }

abbrev failing_breaker : CircuitBreaker ℤ
failing_breaker = record new_breaker { failures = pos 60 ∷ pos 80 ∷ pos 90 ∷ [] }

-- The failure at 60 is outside the window at 100, so that the fourth failure is the third to count.
failing_run : (record_failure (pos 100) failing_breaker).state ≡ opened
unfolding record_failure drop_stale
failing_run = refl

spread_run :
    (run new_breaker (fails (pos 1) ∷ fails (pos 40) ∷ fails (pos 60) ∷ fails (pos 90) ∷ [])).state
    ≡ closed
unfolding run step record_failure drop_stale
spread_run = refl

trial_run : grants open_breaker (pos 105 ∷ pos 111 ∷ pos 112 ∷ []) ≡ 1
unfolding grants allow
trial_run = refl

grants-le-one_example : grants open_breaker (pos 105 ∷ pos 111 ∷ pos 112 ∷ []) ≤ 1
grants-le-one_example = grants-le-one (pos 105 ∷ pos 111 ∷ pos 112 ∷ []) open_breaker (λ e. cc)

record_failure-opens_iff_example :
    ((record_failure (pos 100) failing_breaker).state ≡ opened)
    ↔ (3 ≤ length (keep_if (recent (pos 30) (pos 100)) (pos 60 ∷ pos 80 ∷ pos 90 ∷ pos 100 ∷ [])))
record_failure-opens_iff_example =
    record_failure-opens_iff scaled-IsMonotone (pos 100) failing_breaker refl
      ((refl, (refl, (refl, tt))), ((refl, (refl, tt)), ((refl, tt), (tt, tt))))

new-burst_example :
    (run (new 3 (pos 30) (pos 10)) (map fails (pos 1 ∷ pos 2 ∷ pos 31 ∷ []))).state ≡ opened
new-burst_example =
    new-burst 3 (pos 30) (pos 10) (pos 1) (pos 2 ∷ pos 31 ∷ []) (omega arith) refl
      (refl, (refl, (refl, tt)))

run-new-IsValid_example :
    IsValid (run (new 2 (pos 30) (pos 10)) (fails (pos 1) ∷ fails (pos 2) ∷ asks (pos 13) ∷ []))
run-new-IsValid_example =
    run-new-IsValid 2 (pos 30) (pos 10) (fails (pos 1) ∷ fails (pos 2) ∷ asks (pos 13) ∷ [])
      (omega arith)

trial_outcome_example :
    ((allow (pos 110) open_breaker).0 ≡ true)
    × ((record_success (allow (pos 110) open_breaker).1).state ≡ closed)
    × ((record_success (allow (pos 110) open_breaker).1).failures ≡ [])
    × ((record_failure (pos 112) (allow (pos 110) open_breaker).1).state ≡ opened)
    × ((record_failure (pos 112) (allow (pos 110) open_breaker).1).opened_at ≡ pos 112)
trial_outcome_example = trial_outcome open_breaker (pos 110) (pos 112) refl refl
