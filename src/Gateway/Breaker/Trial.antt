-- ===== src/Gateway/Breaker/Trial.antt =====
-- Cool-down and trial calls of gateway/breaker.py.
use agent_roi_console.Common.{◌≤◌, ◌≡◌, refl, ◌≢◌, true, false, List, [], ◌∷◌, arith, All, map}
use agent_roi_console.Float.{Float, fle, ◌⊖◌, ◌≼◌}
use agent_roi_console.Gateway.Breaker.{
  closed, opened, half_open, CircuitBreaker, asks, allow, record_success, record_failure, step, run,
  grants,
}

module _ {F : Type 0} ⦃fl : Float F⦄ where
  -- While the cool-down of an open breaker lasts, every request is refused and changes nothing.
  pub cooling_refuses :
      (ts : List F) (b : CircuitBreaker F)
      → b.state ≡ opened
      → All (λ t. fle b.half_open_after_s (t ⊖ b.opened_at) ≡ false) ts
      → (grants b ts ≡ 0) × (run b (map asks ts) ≡ b)
  unfolding grants run step allow
  cooling_refuses [] b e h = (refl, refl)
  cooling_refuses (t ∷ ts) b e h = ground (arith, cooling_refuses ts b e h.1)

  -- While a trial is in flight, requests are refused, however late.
  pending_refuses :
      (ts : List F) (b : CircuitBreaker F)
      → b.state ≡ half_open
      → b.trial_in_flight ≡ true
      → grants b ts ≡ 0
  unfolding grants allow
  pending_refuses [] b e h = refl
  pending_refuses (t ∷ ts) b e h = ground (arith, pending_refuses ts b e h)

  -- A breaker that is not closed lets at most one of any number of requests through until an
  -- outcome is reported, whatever their times.
  pub grants-le-one : (ts : List F) (b : CircuitBreaker F) → b.state ≢ closed → grants b ts ≤ 1
  unfolding grants allow
  grants-le-one [] b e = omega arith
  grants-le-one (t ∷ ts) b e =
      ground (arith, grants-le-one ts (allow t b).1, pending_refuses ts (allow t b).1)

  -- After the cool-down the next request is let through as the trial; its success closes the
  -- breaker and clears its failures, and its failure opens it again from the time of that failure.
  pub trial_outcome :
      (b : CircuitBreaker F) (now later : F)
      → b.state ≡ opened
      → b.half_open_after_s ≼ now ⊖ b.opened_at
      → ((allow now b).0 ≡ true)
        × ((record_success (allow now b).1).state ≡ closed)
        × ((record_success (allow now b).1).failures ≡ [])
        × ((record_failure later (allow now b).1).state ≡ opened)
        × ((record_failure later (allow now b).1).opened_at ≡ later)
  unfolding allow record_success record_failure
  trial_outcome b now later e h = ground arith
