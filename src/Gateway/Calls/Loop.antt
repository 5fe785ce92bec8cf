-- ===== src/Gateway/Calls/Loop.antt =====
-- The retry loop of gateway/service.py: how often a model is called, and what a result means.
use agent_roi_console.Common.{
  ℕ, zero, suc, ◌+◌, ◌≤◌, ◌≡◌, refl, Bool, true, false, List, [], ◌∷◌, String, Option, none, some,
  arith, length, map, All, inl, inr, Option-cases, str_eq, if◌then◌else◌,
}
use agent_roi_console.Common.Dict.{lookup, lookup-insert}
use agent_roi_console.Float.{Float, fle, ◌⊖◌}
use agent_roi_console.Gateway.Breaker.{
  CircuitBreaker, BreakerRegistry, opened, get, allow, record_success, record_failure, read_state,
}
use agent_roi_console.Gateway.Calls.{
  Trial, Outcome, Attempt, Circuits, ok, circuit_open, tries, call_model, after_failure,
}

module _ {F : Type 0} ⦃fl : Float F⦄ (factory : CircuitBreaker F) (trials : ℕ → Trial F)
    (model : String) where
  -- A call makes at most one attempt for each round, and meets one trial for each attempt.
  pub length-tries :
      (n : ℕ) (c : Circuits F)
      → let (response, attempts, c') = tries factory trials model n c in
        (length attempts ≤ n) × (c'.met ≡ c.met + length attempts)
  unfolding tries
  length-tries zero c = ground arith
  length-tries (suc left) c =
      let t = trials c.met in
      let asked = allow t.asked_at (get factory model c.breakers).0 in
      ground (arith, length-tries left (after_failure factory trials model t asked.1 c))

  -- Only the breaker of the called model changes.
  pub lookup-tries :
      (j : String) (n : ℕ) (c : Circuits F)
      → str_eq model j ≡ false
      → lookup j (tries factory trials model n c).2.breakers ≡ lookup j c.breakers
  unfolding tries
  lookup-tries j zero c ne = refl
  lookup-tries j (suc left) c ne =
      let t = trials c.met in
      let asked = allow t.asked_at (get factory model c.breakers).0 in
      ground (
        arith,
        lookup-tries j left (after_failure factory trials model t asked.1 c) ne,
        lookup-insert model j (read_state t.gauged_at asked.1).1 c.breakers,
        lookup-insert model j (record_success asked.1) c.breakers,
        lookup-insert model j (read_state t.gauged_at (record_failure t.failed_at asked.1)).1
            c.breakers,
      )

abbrev pub is_ok : Outcome → Bool
is_ok ok = true
is_ok _ = false

abbrev pub is_some {ℓ} : {A : Type ℓ} → Option A → Bool
is_some none = false
is_some (some a) = true

module _ {F : Type 0} where
  -- Some attempt succeeded.
  abbrev pub any_ok : List (Attempt F) → Bool
  any_ok [] = false
  any_ok (a ∷ rest) = if is_ok a.outcome then true else any_ok rest

module _ {F : Type 0} ⦃fl : Float F⦄ (factory : CircuitBreaker F) (trials : ℕ → Trial F)
    (model : String) where
  any_ok-tries :
      (n : ℕ) (c : Circuits F)
      → any_ok (tries factory trials model n c).1 ≡ is_some (tries factory trials model n c).0
  unfolding tries
  any_ok-tries zero c = refl
  any_ok-tries (suc left) c =
      let t = trials c.met in
      let asked = allow t.asked_at (get factory model c.breakers).0 in
      ground (arith, any_ok-tries left (after_failure factory trials model t asked.1 c))

  models-tries :
      (n : ℕ) (c : Circuits F) → All (λ a. a.model ≡ model) (tries factory trials model n c).1
  unfolding tries
  models-tries zero c = tt
  models-tries (suc left) c =
      let t = trials c.met in
      let asked = allow t.asked_at (get factory model c.breakers).0 in
      ground (arith, models-tries left (after_failure factory trials model t asked.1 c))

  -- A model is called with at most one attempt more than its retries, all of them reported under
  -- its name, and a response is returned exactly when an attempt succeeded.
  pub call_model_attempts :
      (o_adapter : Bool) (retries : ℕ) (c : Circuits F)
      → let (response, attempts, c') = call_model factory trials model o_adapter retries c in
        (length attempts ≤ retries + 1)
        × All (λ a. a.model ≡ model) attempts
        × (any_ok attempts ≡ is_some response)
  unfolding call_model
  call_model_attempts false retries c = (omega arith, (refl, tt), refl)
  call_model_attempts true retries c = (
    omega (arith, (length-tries factory trials model (suc retries) c).0),
    models-tries (suc retries) c,
    any_ok-tries (suc retries) c,
  )

  lookup-get :
      (j : String) (d : BreakerRegistry F)
      → str_eq model j ≡ false
      → lookup j (get factory model d).1 ≡ lookup j d
  unfolding get
  lookup-get j d ne = elim (Option-cases (lookup model d)) [
    | inl q ↦ rw (get, q, lookup-insert model j factory d, ne) refl
    | inr (b, q) ↦ rw (get, q) refl
  ]

  -- A call of a model leaves the breakers of all other models as they were.
  pub call_model-lookup :
      (j : String) (o_adapter : Bool) (retries : ℕ) (c : Circuits F)
      → str_eq model j ≡ false
      → lookup j (call_model factory trials model o_adapter retries c).2.breakers
        ≡ lookup j c.breakers
  unfolding call_model
  call_model-lookup j false retries c ne = lookup-get j c.breakers ne
  call_model-lookup j true retries c ne = lookup-tries factory trials model j (suc retries) c ne

  -- While the breaker of a model cools down, its provider is not called: the one attempt is the
  -- refusal.
  call_model-open :
      (b : CircuitBreaker F) (retries : ℕ) (c : Circuits F)
      → lookup model c.breakers ≡ some b
      → b.state ≡ opened
      → fle b.half_open_after_s ((trials c.met).asked_at ⊖ b.opened_at) ≡ false
      → ((call_model factory trials model true retries c).0 ≡ none)
        × (map (λ a. a.outcome) (call_model factory trials model true retries c).1
            ≡ circuit_open ∷ [])
  unfolding call_model tries get allow
  call_model-open b retries c found shut cooling = ground arith
