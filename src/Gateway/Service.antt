-- ===== src/Gateway/Service.antt =====
-- The entry point of gateway/service.py (`complete`, `_serve_cached`, `_persist`), the completion of
-- gateway/schemas.py and the exact cache of gateway/cache.py. The semantic cache is a vector index
-- outside the repository, and a parameter; so are the texts of `json` and the hash of `exact_key`.
-- Readings of clocks are fields of `Moments`. Metrics, spans and the recorder keep no state that
-- the gateway reads.
pub mod Fallback
pub mod Cached
pub mod Complete
pub mod Logic
pub mod Silent
pub mod Rows
pub mod Afford
pub mod Spend
use agent_roi_console.Common.{
  ℕ, zero, suc, ◌+◌, ◌-◌, Bool, true, false, not, ◌&&◌, List, [], ◌∷◌, ◌++◌, String, Option, none,
  some, str_eq, join, map, if◌then◌else◌,
}
use agent_roi_console.Common.Dict.{Dict, lookup}
use agent_roi_console.Float.{Float, fle, flt, float, ◌⊖◌}
use agent_roi_console.Gateway.Breaker.{CircuitBreaker}
use agent_roi_console.Gateway.Router.{RoutingTable}
use agent_roi_console.Gateway.Pricing.{ModelPrice, PriceTable, Priced, estimate, actual}
use agent_roi_console.Gateway.Pricing
use agent_roi_console.Gateway.Store.{MemoryStore}
use agent_roi_console.Gateway.Store
use agent_roi_console.Gateway.Budgets.{BudgetConfig, ChargeTimes, charge, remaining}
use agent_roi_console.Gateway.RateLimit.{Limiter, Poll, Acquired, acquire}
use agent_roi_console.Gateway.RateLimit
use agent_roi_console.Gateway.Calls.{
  ProviderResponse, Trial, Attempt, Circuits, budget_skip, skip, call_model,
}
use agent_roi_console.Gateway.Planning.{
  Message, Request, StepClass, CallSettings, GatewayError, rate_limited, budget_exhausted,
  all_providers_failed, Step, done, refuses, crashes, resolved_max_tokens, estimate_prompt_tokens,
  metadata, plan, fit_budget, or_empty,
}

pub data CacheKind : Type 0 where
  miss exact semantic : CacheKind

pub data RowOutcome : Type 0 where
  row_ok row_rate_limited row_budget_exhausted row_error : RowOutcome

-- `x_roi`
pub record RoiDetails (F : Type 0) : Type 0 where
  pub request_id : String
  pub model : String
  pub provider : String
  pub cost_usd : F
  pub cache : CacheKind
  pub fallback_depth : ℕ
  pub o_downgraded : Bool
  pub o_below_bar : Bool
  pub budget_remaining_usd : F
  pub attempts : List (Attempt F)

pub record Completion (F : Type 0) : Type 0 where
  pub id : String
  pub model : String
  pub content : Option String
  pub tool_calls : List String
  pub finish_reason : String
  pub prompt_tokens : ℕ
  pub completion_tokens : ℕ
  pub total_tokens : ℕ
  pub x_roi : RoiDetails F

-- The text of an error in a row: that of a refusal, or the one that the code spells for a 502.
pub data RowError (F : Type 0) : Type 0 where
  refusal_text : GatewayError F → RowError F
  all_candidates_failed : RowError F

abbrev pub error_text : {F : Type 0} → GatewayError F → RowError F
error_text (all_providers_failed attempts) = all_candidates_failed
error_text e = refusal_text e

-- A row of llm_calls.
pub record Row (F : Type 0) : Type 0 where
  pub request_id : String
  pub workflow_id : Option String
  pub run_id : Option String
  pub step_id : Option String
  pub step_class : Option String
  pub model : String
  pub provider : String
  pub input_tokens : ℕ
  pub output_tokens : ℕ
  pub cost_usd : F
  pub cache : CacheKind
  pub fallback_depth : ℕ
  pub outcome : RowOutcome
  -- the refusal whose text it is
  pub error : Option (RowError F)
  pub latency_s : F
  pub created_at : String

-- The semantic cache, with its own state: the text, the step class and the model of a prompt.
pub record SemanticLookup (F S : Type 0) : Type 0 where
  pub find : String → String → String → S → Option (Completion F)
  pub store : String → String → String → Completion F → S → S

-- `json.dumps` and `json.loads` of a completion.
pub record Codec (F : Type 0) : Type 0 where
  pub dumps : Completion F → String
  pub loads : String → Option (Completion F)

pub record GatewayDeps (F S : Type 0) : Type 0 where
  pub adapters : Dict (Unit {0})
  pub prices : PriceTable F
  pub budgets : BudgetConfig F
  pub factory : CircuitBreaker F
  pub rate_limiter : Limiter F
  pub cache_ttl_s : ℕ
  pub codec : Codec F
  pub step_classes : Dict (StepClass F)
  pub routing_table : Option (RoutingTable F)
  pub semantic_cache : Option (SemanticLookup F S)
  pub settings : CallSettings F
  pub o_persist : Bool

-- What of one call the clocks, the providers and the generator of ids decide.
pub record Moments (F : Type 0) : Type 0 where
  pub request_id : String
  pub response_id : String
  pub cache_key : String
  pub day : String
  pub started : F
  pub polls : List (Poll F)
  pub cache_read : F
  pub cache_written : F
  -- the readings of the two counters, before the candidate of a depth is tried
  pub budget_reads : ℕ → F × F
  pub charge_times : ChargeTimes F
  pub latency_s : F
  pub created_at : String

pub record Gateway (F S : Type 0) : Type 0 where
  pub memory : MemoryStore F
  pub circuits : Circuits F
  pub semantic : S
  -- oldest first
  pub rows : List (Row F)

-- A part of `complete`, with the gateway as its state; a refusal keeps what was done before it.
abbrev pub Run : (F S : Type 0) → Type 0 → Type 0
Run F S A = Gateway F S → Step F A × Gateway F S

module _ {F S A B : Type 0} where
  abbrev pub after : Step F A × Gateway F S → (A → Run F S B) → Step F B × Gateway F S
  after (done a, s) f = f a s
  after (refuses e, s) f = (refuses e, s)
  after (crashes, s) f = (crashes, s)

  infixl 5 ◌>>=◌
  unfoldable pub ◌>>=◌ : Run F S A → (A → Run F S B) → Run F S B
  (m >>= f) s = after (m s) f

module _ {F S A : Type 0} where
  -- A step that leaves the gateway alone.
  unfoldable pub lift : Step F A → Run F S A
  lift r s = (r, s)

  -- A step on the store of counters, caches and buckets; `none` is an exception of Python.
  unfoldable pub on_memory : (MemoryStore F → Option A × MemoryStore F) → Run F S A
  on_memory f s =
      let (result, memory) = f s.memory in
      (elim result [ none ↦ crashes | some a ↦ done a ], record s { memory = memory })

module _ {F A : Type 0} where
  abbrev pub priced : Priced A → Step F A
  priced (Pricing.ok a) = done a
  priced (Pricing.missing_price reason) = crashes
  priced Pricing.value_error = crashes

module _ {F S : Type 0} (deps : GatewayDeps F S) where
  -- `_persist`
  unfoldable pub persist : Row F → Gateway F S → Gateway F S
  persist row s = if deps.o_persist then record s { rows = s.rows ++ row ∷ [] } else s

  unfoldable pub persisted : {A : Type 0} → Row F → Step F A → Run F S A
  unfolding persist
  persisted row r s = (r, persist row s)

abbrev pub row_of :
    {F : Type 0}
    → Moments F
    → Dict String
    → String
    → String
    → ℕ
    → ℕ
    → F
    → CacheKind
    → ℕ
    → RowOutcome
    → Option (RowError F)
    → Row F
row_of at d model provider input output cost_usd cache depth outcome error = record {
  request_id = at.request_id;
  workflow_id = lookup "workflow_id" d;
  run_id = lookup "run_id" d;
  step_id = lookup "step_id" d;
  step_class = lookup "step_class" d;
  model = model;
  provider = provider;
  input_tokens = input;
  output_tokens = output;
  cost_usd = cost_usd;
  cache = cache;
  fallback_depth = depth;
  outcome = outcome;
  error = error;
  latency_s = at.latency_s;
  created_at = at.created_at;
}

-- The row of a refused request: a miss, without tokens or cost.
abbrev pub refusal_row :
    {F : Type 0} ⦃fl : Float F⦄
    → Moments F
    → Dict String
    → String
    → ℕ
    → RowOutcome
    → GatewayError F
    → Row F
refusal_row at d model depth outcome e =
    row_of at d model "" 0 0 (float 0) miss depth outcome (some (error_text e))
