-- ===== src/Gateway/Calls.antt =====
-- The retry loop of gateway/service.py (`_call_model`): one model, with its circuit breaker, its
-- timeout and its retries, and what of gateway/adapters/base.py it reads. What the provider and the
-- clock do in one round of a loop is a `Trial`, and the n-th round of a history meets the n-th of
-- an infinite sequence of trials. Sleeps and metrics change no state.
pub mod Loop
use agent_roi_console.Common.{
  ℕ, zero, suc, Bool, true, false, List, [], ◌∷◌, ◌++◌, String, join, Option, none, some, ◌==◌,
  ◌||◌, if◌then◌else◌,
}
use agent_roi_console.Common.Dict.{insert}
use agent_roi_console.Float.{Float, float}
use agent_roi_console.Gateway.Breaker.{
  CircuitBreaker, BreakerRegistry, get, allow, record_success, record_failure, read_state,
}

pub record ProviderResponse : Type 0 where
  pub content : Option String
  pub tool_calls : List String
  pub finish_reason : String
  pub input_tokens : ℕ
  pub output_tokens : ℕ
  pub response_model : String

-- The label of a failure, `http_<status>` among them.
pub data Kind : Type 0 where
  http : ℕ → Kind
  timeout connection invalid_response : Kind

pub record ProviderError : Type 0 where
  pub message : String
  pub o_retryable : Bool
  pub kind : Kind

-- `status in RETRYABLE_STATUS_SET`
abbrev pub is_retryable_status : ℕ → Bool
is_retryable_status n =
    n == 408
    || n == 409
    || n == 425
    || n == 429
    || n == 500
    || n == 502
    || n == 503
    || n == 504
    || n == 529

-- `s[:n]`
abbrev pub truncate : ℕ → String → String
truncate zero s = String.[]
truncate (suc n) String.[] = String.[]
truncate (suc n) (String.◌∷◌ c s) = String.◌∷◌ c (truncate n s)

-- The second argument is the status in digits.
unfoldable pub status_error : ℕ → String → String → ProviderError
status_error status digits body = record {
  message = join ("provider returned HTTP " ∷ digits ∷ ": " ∷ truncate 300 body ∷ []);
  o_retryable = is_retryable_status status;
  kind = http status;
}

abbrev pub timeout_error : ProviderError
timeout_error = record { message = "gateway timeout"; o_retryable = true; kind = timeout }

-- What `asyncio.wait_for(adapter.complete(...), timeout_s)` does.
pub data Reply : Type 0 where
  responds : ProviderResponse → Reply
  errs : ProviderError → Reply
  times_out : Reply

pub record Trial (F : Type 0) : Type 0 where
  pub asked_at : F
  pub reply : Reply
  pub failed_at : F
  pub gauged_at : F
  pub latency_s : F

pub data Outcome : Type 0 where
  no_adapter circuit_open ok budget_skip : Outcome
  failed : Kind → Outcome

pub record Attempt (F : Type 0) : Type 0 where
  pub model : String
  pub outcome : Outcome
  pub latency_s : F
  pub error : Option String

-- The breakers, and the number of trials met so far.
pub record Circuits (F : Type 0) : Type 0 where
  pub breakers : BreakerRegistry F
  pub met : ℕ

module _ {F : Type 0} ⦃fl : Float F⦄ where
  abbrev pub skip : String → Outcome → Option String → Attempt F
  skip model outcome error = record {
    model = model;
    outcome = outcome;
    latency_s = float 0;
    error = error;
  }

module _ {F : Type 0} ⦃fl : Float F⦄ (factory : CircuitBreaker F) (trials : ℕ → Trial F)
    (model : String) where
  -- The breaker of the model is replaced, and the trial is behind us.
  abbrev pub put : CircuitBreaker F → Circuits F → Circuits F
  put b c = record { breakers = insert model b c.breakers; met = suc c.met }

  -- `not breaker.allow()`; the gauge reads the breaker's state, which may half-open it.
  refused :
      Trial F
      → CircuitBreaker F
      → Circuits F
      → Option ProviderResponse × List (Attempt F) × Circuits F
  refused t b c = (none, skip model circuit_open none ∷ [], put (read_state t.gauged_at b).1 c)

  succeeded :
      Trial F
      → ProviderResponse
      → CircuitBreaker F
      → Circuits F
      → Option ProviderResponse × List (Attempt F) × Circuits F
  succeeded t r b c = (
    some r,
    record { model = model; outcome = ok; latency_s = t.latency_s; error = none } ∷ [],
    put (record_success b) c,
  )

  failure : Trial F → ProviderError → Attempt F
  failure t e = record {
    model = model;
    outcome = failed e.kind;
    latency_s = t.latency_s;
    error = some (truncate 300 e.message);
  }

  after_failure : Trial F → CircuitBreaker F → Circuits F → Circuits F
  after_failure t b c = put (read_state t.gauged_at (record_failure t.failed_at b)).1 c

  -- A failure ends the rounds unless it is retryable.
  retried :
      Trial F
      → ProviderError
      → Circuits F
      → Option ProviderResponse × List (Attempt F) × Circuits F
      → Option ProviderResponse × List (Attempt F) × Circuits F
  retried t e c (response, attempts, c') =
      if e.o_retryable then (response, failure t e ∷ attempts, c') else (none, failure t e ∷ [], c)

  -- The rounds left of `for try_index in range(retries + 1)`.
  unfoldable pub tries : ℕ → Circuits F → Option ProviderResponse × List (Attempt F) × Circuits F
  unfolding refused succeeded failure after_failure retried
  tries zero c = (none, [], c)
  tries (suc left) c =
      let t = trials c.met in
      let (allowed, b) = allow t.asked_at (get factory model c.breakers).0 in
      let failed = after_failure t b c in
      let rest = tries left failed in
      elim allowed [
        | false ↦ refused t b c
        | true ↦ elim t.reply [
          | responds r ↦ succeeded t r b c
          | errs e ↦ retried t e failed rest
          | times_out ↦ retried t timeout_error failed rest
        ]
      ]

  -- `_call_model`, given whether the model's provider has an adapter.
  unfoldable pub call_model :
      Bool → ℕ → Circuits F → Option ProviderResponse × List (Attempt F) × Circuits F
  call_model false retries c = (
    none,
    skip model no_adapter (some "provider not configured") ∷ [],
    record c { breakers = (get factory model c.breakers).1 },
  )
  call_model true retries c = tries (suc retries) c
