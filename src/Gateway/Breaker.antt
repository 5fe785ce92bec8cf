-- ===== src/Gateway/Breaker.antt =====
-- gateway/breaker.py: the circuit breaker of one provider model, and the registry of breakers.
-- A call of the injected clock is an argument, the time that it returns. Each method runs under the
-- breaker's lock, so a history of the object is a list of whole calls.
pub mod Window
pub mod History
pub mod Trial
use agent_roi_console.Common.{
  ℕ, suc, Bool, true, false, ◌&&◌, List, [], ◌∷◌, ◌++◌, String, Option, none, some, length, leb,
  if◌then◌else◌,
}
use agent_roi_console.Common.Dict.{Dict, lookup, insert}
use agent_roi_console.Float.{Float, fle, flt, ◌⊖◌, float}

pub data State : Type 0 where
  closed opened half_open : State

abbrev pub is_opened : State → Bool
is_opened opened = true
is_opened _ = false

pub record CircuitBreaker (F : Type 0) : Type 0 where
  pub failure_threshold : ℕ
  pub window_s : F
  pub half_open_after_s : F
  -- oldest first
  pub failures : List F
  pub state : State
  pub opened_at : F
  pub trial_in_flight : Bool

module _ {F : Type 0} ⦃fl : Float F⦄ where
  unfoldable pub new : ℕ → F → F → CircuitBreaker F
  new threshold window_s half_open_after_s = record {
    failure_threshold = threshold;
    window_s = window_s;
    half_open_after_s = half_open_after_s;
    failures = [];
    state = closed;
    opened_at = float 0;
    trial_in_flight = false;
  }

  unfoldable pub refresh : F → CircuitBreaker F → CircuitBreaker F
  refresh now b =
      if is_opened b.state && fle b.half_open_after_s (now ⊖ b.opened_at)
      then record b { state = half_open; trial_in_flight = false }
      else b

  -- The `state` property, which refreshes first.
  unfoldable pub read_state : F → CircuitBreaker F → State × CircuitBreaker F
  unfolding refresh
  read_state now b = let b' = refresh now b in (b'.state, b')

  -- The part of `allow` behind the refresh.
  admit : State → CircuitBreaker F → Bool × CircuitBreaker F
  admit closed b = (true, b)
  admit opened b = (false, b)
  admit half_open b =
      if b.trial_in_flight then (false, b) else (true, record b { trial_in_flight = true })

  unfoldable pub allow : F → CircuitBreaker F → Bool × CircuitBreaker F
  unfolding refresh admit
  allow now b = let b' = refresh now b in admit b'.state b'

  unfoldable pub record_success : CircuitBreaker F → CircuitBreaker F
  record_success b = record b { state = closed; failures = []; trial_in_flight = false }

  -- `_open`
  unfoldable pub open_at : F → CircuitBreaker F → CircuitBreaker F
  open_at now b = record b {
    state = opened;
    opened_at = now;
    failures = [];
    trial_in_flight = false;
  }

  -- The loop that pops failures from the left while the oldest is outside the window.
  unfoldable pub drop_stale : F → F → List F → List F
  drop_stale window_s now [] = []
  drop_stale window_s now (f ∷ fs) =
      let rest = drop_stale window_s now fs in if flt window_s (now ⊖ f) then rest else f ∷ fs

  unfoldable pub count_failure : F → CircuitBreaker F → CircuitBreaker F
  unfolding open_at
  count_failure now b =
      let kept = drop_stale b.window_s now (b.failures ++ now ∷ []) in
      let counted = record b { failures = kept } in
      if leb b.failure_threshold (length kept) then open_at now counted else counted

  on_failure : State → F → CircuitBreaker F → CircuitBreaker F
  on_failure half_open now b = open_at now b
  on_failure closed now b = count_failure now b
  on_failure opened now b = count_failure now b

  unfoldable pub record_failure : F → CircuitBreaker F → CircuitBreaker F
  unfolding on_failure count_failure open_at
  record_failure now b = on_failure b.state now b

-- `BreakerRegistry`: model to breaker.
abbrev pub BreakerRegistry : Type 0 → Type 0
BreakerRegistry F = Dict (CircuitBreaker F)

module _ {F : Type 0} where
  -- `get`: the breaker of a model, made by the factory on first use.
  unfoldable pub get :
      CircuitBreaker F → String → BreakerRegistry F → CircuitBreaker F × BreakerRegistry F
  get factory model breakers = elim (lookup model breakers) [
    | none ↦ (factory, insert model factory breakers)
    | some b ↦ (b, breakers)
  ]

module _ {F : Type 0} ⦃fl : Float F⦄ where
  -- `states`, with the reading of the clock at each breaker; reading a state may half-open it.
  unfoldable pub states : (String → F) → BreakerRegistry F → Dict State × BreakerRegistry F
  unfolding read_state
  states at [] = ([], [])
  states at ((model, b) ∷ breakers) =
      let (s, b') = read_state (at model) b in
      let (rest, breakers') = states at breakers in ((model, s) ∷ rest, (model, b') ∷ breakers')

-- A call of a breaker: a request for a call with the clock's reading, or a reported outcome.
pub data Call (F : Type 0) : Type 0 where
  asks : F → Call F
  succeeds : Call F
  fails : F → Call F

module _ {F : Type 0} ⦃fl : Float F⦄ where
  unfoldable pub step : CircuitBreaker F → Call F → CircuitBreaker F
  step b (asks now) = (allow now b).1
  step b succeeds = record_success b
  step b (fails now) = record_failure now b

  unfoldable pub run : CircuitBreaker F → List (Call F) → CircuitBreaker F
  run b [] = b
  run b (c ∷ cs) = run (step b c) cs

  -- How many requests of a list of polls are let through.
  unfoldable pub grants : CircuitBreaker F → List F → ℕ
  grants b [] = 0
  grants b (now ∷ ts) =
      let rest = grants (allow now b).1 ts in if (allow now b).0 then suc rest else rest
