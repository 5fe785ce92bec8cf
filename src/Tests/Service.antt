-- ===== src/Tests/Service.antt =====
-- gateway/service.py at concrete requests: prices in units of a million tokens, budgets in units.
use agent_roi_console.Common.{
  ℕ, zero, suc, ◌≤◌, ◌≡◌, refl, ◌≢◌, true, false, List, [], ◌∷◌, String, Option, none, some, arith,
  All, length, keep_if, size,
}
use agent_roi_console.Common.Dict.{Dict, lookup, insert, contains, remove}
use agent_roi_console.Common.Sort.{sorted, insert_sorted}
use agent_roi_console.Float.{fle, float, ◌⊖◌, ◌≼◌}
use agent_roi_console.Float.Scaled.{ℤ, pos, scaled, scaled-IsMonotone, repr_ℤ, parse_ℤ}
use agent_roi_console.Gateway.Breaker.{CircuitBreaker, closed, opened}
use agent_roi_console.Gateway.Pricing.{ModelPrice, PriceTable, has, get, estimate, actual}
use agent_roi_console.Gateway.Pricing
use agent_roi_console.Gateway.Pricing.Bounds.{IsPrice}
use agent_roi_console.Gateway.Calls.{
  ProviderResponse, http, Reply, responds, errs, Trial, Attempt, Circuits, ok, failed, call_model,
  tries, status_error,
}
use agent_roi_console.Gateway.Calls.Loop.{any_ok, is_some, call_model_attempts}
use agent_roi_console.Gateway.Planning.{
  Request, CallSettings, budget_exhausted, Step, done, refuses, crashes, metadata, plan, fit_budget,
  estimates, names, metadata_fields, is_missing, or_no_metadata, estimate_prompt_tokens,
  resolved_max_tokens,
}
use agent_roi_console.Gateway.Planning.Fit.{
  IsEstimate, Choice, plan-priced, fit_budget-Choice, fit_budget-refuses,
}
use agent_roi_console.Gateway.Planning.Metadata.{IsAttributed, metadata-IsAttributed}
use agent_roi_console.Gateway.Service.{miss, Completion, Codec, GatewayDeps, Moments, Gateway}
use agent_roi_console.Gateway.Streaming.{
  stream_chunks, heard_content, heard_calls, stream_chunks-heard,
}
use agent_roi_console.Gateway.Service.Logic.{Post}
use agent_roi_console.Gateway.Service.Silent.{Keeps, Refused, Recorded}
use agent_roi_console.Gateway.Service.Rows.{complete-rows}
use agent_roi_console.Gateway.Service.Afford.{Fits}
use agent_roi_console.Gateway.Service.Spend.{complete-IsAfforded, complete-within_budget}
use agent_roi_console.Gateway.Breaker.{
  allow, get as get_breaker, read_state, record_success, record_failure, drop_stale,
}
use agent_roi_console.Gateway.Service.{◌>>=◌, lift, on_memory, persist, persisted}
use agent_roi_console.Gateway.RateLimit.{acquire, limit_for, rounds, take_cost, take_request}
use agent_roi_console.Gateway.Store.{take_tokens, live, get_float, incr_float, to_float, set}
use agent_roi_console.Gateway.Store.{get as get_text}
use agent_roi_console.Gateway.Budgets.{remaining, spent, for_workflow, charge}
use agent_roi_console.Gateway.Service.Cached.{
  exact_get, exact_put, cached, decoded, semantic_for, or_semantic, prompt_text,
}
use agent_roi_console.Gateway.Service.Fallback.{
  fall, recheck, call, or_next, or_skip, read_remaining,
}
use agent_roi_console.Gateway.Service.Complete.{
  complete, serve, wait, or_refuse, acquired, answer, compute, fit_plan, conclude, concluded,
  settle, completion, cache_put, semantic_put,
}

abbrev price : String → ℕ → ℕ → ModelPrice ℤ
price model input output = record {
  model = model;
  provider = "openai";
  provider_model = model;
  input_per_mtok = pos input;
  output_per_mtok = pos output;
  source = "list";
  as_of = "2026-01-01";
  o_computed = false;
}

abbrev prices : PriceTable ℤ
prices = record {
  prices = ("large", price "large" 3000000 9000000) ∷ ("small", price "small" 1000000 2000000) ∷ [];
  unpriced = [];
}

abbrev settings : CallSettings ℤ
settings = record { retries = 1; min_step_success = pos 90; routed_model = "auto"; o_strict = true }

abbrev request : Request
request = record {
  model = "large";
  messages = record { role = some "user"; content = some "hi" } ∷ [];
  messages_json = "[{}]";
  tools_json = none;
  max_tokens = some 20;
  max_completion_tokens = none;
  metadata = some (
      ("workflow_id", "crm")
      ∷ ("run_id", "r1")
      ∷ ("step_id", "s1")
      ∷ ("step_class", "extract")
      ∷ []);
}

abbrev bare_request : Request
bare_request = record request { metadata = some (("workflow_id", "crm") ∷ ("run_id", "") ∷ []) }

abbrev served_metadata : Dict String
served_metadata =
    ("workflow_id", "crm")
    ∷ ("run_id", "r1")
    ∷ ("step_id", "s1")
    ∷ ("step_class", "extract")
    ∷ ("cache", "on")
    ∷ []

metadata_run : metadata settings request ≡ done served_metadata
unfolding metadata lookup insert
metadata_run = refl

metadata-IsAttributed_example : IsAttributed served_metadata
metadata-IsAttributed_example = metadata-IsAttributed settings request served_metadata metadata_run

some_missing :
    keep_if (is_missing (or_no_metadata bare_request.metadata)) metadata_fields
    ≡ "run_id" ∷ "step_id" ∷ "step_class" ∷ []
unfolding lookup
some_missing = refl

plan_run : plan settings prices none [] "large" "extract" ≡ done ("large" ∷ [], false)
unfolding plan has contains
plan_run = refl

abbrev large_only : List String
large_only = "large" ∷ []

plan-priced_example : All (λ m. has prices m ≡ true) large_only × (large_only ≢ [])
plan-priced_example =
    plan-priced settings prices none [] "large" "extract" large_only false plan_run

-- "large" costs 210 and "small" 50.
downgrade_run :
    fit_budget prices (pos 100) ("large" ∷ "small" ∷ []) 10 20 ≡ done ("small" ∷ [], true)
unfolding fit_budget estimates estimate get lookup sorted insert_sorted Pricing.token_cost
downgrade_run = refl

exhausted_run :
    fit_budget prices (pos 40) ("large" ∷ "small" ∷ []) 10 20
    ≡ refuses (budget_exhausted (pos 40) (("large", pos 210) ∷ ("small", pos 50) ∷ []))
unfolding fit_budget estimates estimate get lookup sorted Pricing.token_cost
exhausted_run = refl

fit_budget-Choice_example :
    Choice prices 10 20 (pos 100) ("large" ∷ "small" ∷ []) ("small" ∷ [], true)
fit_budget-Choice_example =
    fit_budget-Choice scaled-IsMonotone prices 10 20 (pos 100) ("large" ∷ "small" ∷ [])
      ("small" ∷ []) true downgrade_run

fit_budget-refuses_example :
    (es : List (String × ℤ)) × (names es ≡ "large" ∷ "small" ∷ [])
    × All (IsEstimate prices 10 20) es
    × All (λ e. fle e.1 (pos 40) ≡ false) es
    × (budget_exhausted (pos 40) (("large", pos 210) ∷ ("small", pos 50) ∷ [])
        ≡ budget_exhausted (pos 40) es)
fit_budget-refuses_example =
    fit_budget-refuses scaled-IsMonotone prices 10 20 (pos 40) ("large" ∷ "small" ∷ [])
      (budget_exhausted (pos 40) (("large", pos 210) ∷ ("small", pos 50) ∷ [])) exhausted_run

abbrev breaker : CircuitBreaker ℤ
breaker = record {
  failure_threshold = 3;
  window_s = pos 30;
  half_open_after_s = pos 10;
  failures = [];
  state = closed;
  opened_at = pos 0;
  trial_in_flight = false;
}

abbrev open_breaker : CircuitBreaker ℤ
open_breaker = record breaker { state = opened; opened_at = pos 7 }

abbrev response : ProviderResponse
response = record {
  content = some "hello";
  tool_calls = [];
  finish_reason = "stop";
  input_tokens = 4;
  output_tokens = 10;
  response_model = "large";
}

-- The first call meets an HTTP 503, the later ones succeed.
abbrev replies : ℕ → Reply
replies zero = errs (status_error 503 "503" "busy")
replies (suc n) = responds response

abbrev trials : ℕ → Trial ℤ
trials n = record {
  asked_at = pos 9;
  reply = replies n;
  failed_at = pos 9;
  gauged_at = pos 9;
  latency_s = pos 1;
}

abbrev idle : Circuits ℤ
idle = record { breakers = []; met = 0 }

abbrev cooling : Circuits ℤ
cooling = record { breakers = ("large", open_breaker) ∷ []; met = 0 }

retried_run : (call_model breaker trials "large" true 1 idle).0 ≡ some response
unfolding call_model tries allow get_breaker lookup insert status_error read_state record_success
    record_failure drop_stale
retried_run = refl

call_model_attempts_example :
    let (reply, attempts, c') = call_model breaker trials "large" true 1 idle in
    (length attempts ≤ 2)
    × All (λ a. a.model ≡ "large") attempts
    × (any_ok attempts ≡ is_some reply)
call_model_attempts_example = call_model_attempts breaker trials "large" true 1 idle

cooling_breaker : lookup "large" cooling.breakers ≡ some open_breaker
unfolding lookup
cooling_breaker = refl

abbrev codec : Codec ℤ
codec = record { dumps = λ c. c.id; loads = λ t. none }

abbrev deps : GatewayDeps ℤ (Unit {0})
deps = record {
  adapters = ("openai", tt) ∷ [];
  prices = prices;
  budgets = record {
    defaults = record { per_run_usd = pos 200; per_workflow_daily_usd = pos 500 };
    overrides = [];
  };
  factory = breaker;
  rate_limiter = record {
    limits =
        ("default", record { requests_per_minute = pos 60; tokens_per_minute = pos 6000 }) ∷ [];
    max_wait_s = pos 5;
  };
  cache_ttl_s = 60;
  codec = codec;
  step_classes = [];
  routing_table = none;
  semantic_cache = none;
  settings = settings;
  o_persist = true;
}

abbrev moments : Moments ℤ
moments = record {
  request_id = "q1";
  response_id = "chatcmpl-1";
  cache_key = "cache:exact:1";
  day = "2026-01-01";
  started = pos 0;
  polls = record { request_at = pos 1; tokens_at = pos 1; ended_at = pos 1 } ∷ [];
  cache_read = pos 2;
  cache_written = pos 9;
  budget_reads = λ depth. (pos 3, pos 3);
  charge_times = record {
    run_read = pos 8;
    run_written = pos 8;
    day_read = pos 8;
    day_written = pos 8;
  };
  latency_s = pos 9;
  created_at = "2026-01-01T00:00:09";
}

abbrev gateway : Gateway ℤ (Unit {0})
gateway = record {
  memory = record { values = []; buckets = [] };
  circuits = idle;
  semantic = tt;
  rows = [];
}

-- What a step gives: the model, the cost and the rest of the budget.
abbrev bill : Step ℤ (Completion ℤ) → Option (String × ℤ × ℤ)
bill (done c) = some (c.model, c.x_roi.cost_usd, c.x_roi.budget_remaining_usd)
bill (refuses e) = none
bill crashes = none

abbrev large_bill : Option (String × ℤ × ℤ)
large_bill = some ("large", pos 102, pos 98)

-- 195 were estimated of the 200 that are there, and 102 are paid.
complete_run : bill (complete deps trials moments request gateway).0 ≡ large_bill
unfolding complete serve wait or_refuse acquired answer compute fit_plan conclude concluded settle
    completion cache_put semantic_put ◌>>=◌ lift on_memory persist persisted metadata plan
    fit_budget estimates estimate actual get has contains Pricing.token_cost lookup insert remove
    estimate_prompt_tokens resolved_max_tokens size acquire limit_for rounds take_cost take_request
    take_tokens live get_float incr_float to_float set get_text remaining spent for_workflow charge
    exact_get exact_put cached decoded semantic_for or_semantic prompt_text fall recheck call
    or_next or_skip read_remaining call_model tries allow get_breaker status_error read_state
    record_success record_failure drop_stale repr_ℤ parse_ℤ
complete_run = refl

abbrev failed_attempt : Attempt ℤ
failed_attempt = record {
  model = "large";
  outcome = failed (http 503);
  latency_s = pos 1;
  error = some "provider returned HTTP 503: busy";
}

abbrev ok_attempt : Attempt ℤ
ok_attempt = record { model = "large"; outcome = ok; latency_s = pos 1; error = none }

abbrev served : Completion ℤ
served = record {
  id = "chatcmpl-1";
  model = "large";
  content = some "hello";
  tool_calls = [];
  finish_reason = "stop";
  prompt_tokens = 4;
  completion_tokens = 10;
  total_tokens = 14;
  x_roi = record {
    request_id = "q1";
    model = "large";
    provider = "openai";
    cost_usd = pos 102;
    cache = miss;
    fallback_depth = 0;
    o_downgraded = false;
    o_below_bar = false;
    budget_remaining_usd = pos 98;
    attempts = failed_attempt ∷ ok_attempt ∷ [];
  };
}

served_run : (complete deps trials moments request gateway).0 ≡ done served
unfolding complete serve wait or_refuse acquired answer compute fit_plan conclude concluded settle
    completion cache_put semantic_put ◌>>=◌ lift on_memory persist persisted metadata plan
    fit_budget estimates estimate actual get has contains Pricing.token_cost lookup insert remove
    estimate_prompt_tokens resolved_max_tokens size acquire limit_for rounds take_cost take_request
    take_tokens live get_float incr_float to_float set get_text remaining spent for_workflow charge
    exact_get exact_put cached decoded semantic_for or_semantic prompt_text fall recheck call
    or_next or_skip read_remaining call_model tries allow get_breaker status_error read_state
    record_success record_failure drop_stale repr_ℤ parse_ℤ
served_run = refl

complete-IsAfforded_example :
    (left : ℤ) × Fits prices
      (estimate_prompt_tokens request)
      (resolved_max_tokens request)
      "large"
      left
    × (actual prices "large" 4 10 ≡ Pricing.ok (pos 102))
    × (pos 98 ≡ left ⊖ pos 102)
complete-IsAfforded_example =
    complete-IsAfforded scaled-IsMonotone deps trials moments request gateway served served_run refl

prices_IsPrice : (m : String) (p : ModelPrice ℤ) → get prices m ≡ Pricing.ok p → IsPrice p
unfolding get lookup
prices_IsPrice m p e = ground arith

request_tokens : (estimate_prompt_tokens request ≡ 5) × (resolved_max_tokens request ≡ 20)
unfolding estimate_prompt_tokens resolved_max_tokens size
request_tokens = (refl, refl)

complete-within_budget_example : float 0 ≼ pos 98
complete-within_budget_example =
    complete-within_budget scaled-IsMonotone deps trials moments request gateway served
      prices_IsPrice served_run refl (omega (arith, request_tokens.0))
      (omega (arith, request_tokens.1))

complete-rows_example :
    Post (Refused []) (Keeps []) (Recorded []) (complete deps trials moments request gateway)
complete-rows_example = complete-rows deps trials moments request gateway refl

stream_chunks-heard_example :
    (heard_content (stream_chunks served) ≡ "hello") × (heard_calls (stream_chunks served) ≡ [])
stream_chunks-heard_example = stream_chunks-heard served
