-- ===== src/Gateway/Breaker/History.antt =====
-- What holds of a breaker of gateway/breaker.py after any calls, in any order.
use agent_roi_console.Common.{ℕ, ◌<◌, ◌≡◌, true, List, [], ◌∷◌, arith, length}
use agent_roi_console.Float.{Float}
use agent_roi_console.Gateway.Breaker.{
  half_open, CircuitBreaker, Call, asks, succeeds, fails, new, allow, record_success,
  record_failure, step, run,
}

-- The deque never holds as many failures as would open the breaker, and a trial is in flight only
-- while the breaker is half open.
pub record IsValid {F : Type 0} (b : CircuitBreaker F) : Type 0 where
  pub armed : length b.failures < b.failure_threshold
  pub trial : b.trial_in_flight ≡ true → b.state ≡ half_open

module _ {F : Type 0} ⦃fl : Float F⦄ where
  allow-IsValid : (now : F) (b : CircuitBreaker F) → IsValid b → IsValid (allow now b).1
  unfolding allow
  allow-IsValid now b v = ground arith

  record_failure-IsValid :
      (now : F) (b : CircuitBreaker F) → IsValid b → IsValid (record_failure now b)
  unfolding record_failure
  record_failure-IsValid now b v = ground arith

  -- Every call of a breaker keeps it valid: fewer failures than the threshold are held, and a
  -- trial is in flight only in the half-open state.
  pub step-IsValid : (b : CircuitBreaker F) (c : Call F) → IsValid b → IsValid (step b c)
  unfolding step record_success
  step-IsValid b (asks now) v = allow-IsValid now b v
  step-IsValid b succeeds v = ground arith
  step-IsValid b (fails now) v = record_failure-IsValid now b v

  pub run-IsValid : (b : CircuitBreaker F) (cs : List (Call F)) → IsValid b → IsValid (run b cs)
  unfolding run
  run-IsValid b [] v = v
  run-IsValid b (c ∷ cs) v = run-IsValid (step b c) cs (step-IsValid b c v)

  -- A new breaker with a positive threshold is valid after any calls, in any order: it holds fewer
  -- failures than the threshold, and a trial is in flight only while it is half open.
  pub run-new-IsValid :
      (threshold : ℕ) (window_s half_open_after_s : F) (cs : List (Call F))
      → 0 < threshold
      → IsValid (run (new threshold window_s half_open_after_s) cs)
  unfolding new
  run-new-IsValid threshold window_s half_open_after_s cs p =
      run-IsValid _ cs (record { armed = p; trial = λ e. cc })
