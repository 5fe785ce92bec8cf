-- ===== src/Gateway/Service/Complete.antt =====
-- `complete` of gateway/service.py: one chat completion, from its metadata to its row.
use agent_roi_console.Common.{
  ℕ, ◌+◌, Bool, List, [], ◌∷◌, String, Option, none, some, str_eq, if◌then◌else◌,
}
use agent_roi_console.Common.Dict.{Dict, lookup}
use agent_roi_console.Float.{Float, ◌⊖◌}
use agent_roi_console.Gateway.Pricing.{ModelPrice, get, actual}
use agent_roi_console.Gateway.Budgets.{charge}
use agent_roi_console.Gateway.RateLimit.{Acquired, waited, exceeded, waiting, key_error, acquire}
use agent_roi_console.Gateway.Calls.{ProviderResponse, Trial}
use agent_roi_console.Gateway.Planning.{
  Request, rate_limited, all_providers_failed, Step, done, refuses, crashes, resolved_max_tokens,
  estimate_prompt_tokens, metadata, plan, fit_budget, or_empty,
}
use agent_roi_console.Gateway.Service.{
  CacheKind, miss, RowOutcome, row_ok, row_rate_limited, row_budget_exhausted, row_error,
  Completion, SemanticLookup, GatewayDeps, Moments, Gateway, Run, ◌>>=◌, lift, on_memory, priced,
  persist, persisted, row_of, refusal_row,
}
use agent_roi_console.Gateway.Service.Cached.{
  exact_put, semantic_for, cached, serve_cached, prompt_text,
}
use agent_roi_console.Gateway.Service.Fallback.{Fallback, fall, read_remaining}

-- `list[0]` and `list[-1]`; both crash on an empty list.
abbrev pub first_of : {F : Type 0} → List String → Step F String
first_of [] = crashes
first_of (m ∷ ms) = done m

abbrev pub last_of : {F : Type 0} → List String → Step F String
last_of [] = crashes
last_of (m ∷ []) = done m
last_of (m ∷ n ∷ ms) = last_of (n ∷ ms)

-- What the parts of `complete` behind the plan share.
pub record Job (F S : Type 0) : Type 0 where
  pub request : Request
  pub metadata : Dict String
  pub max_tokens : ℕ
  pub prompt_tokens : ℕ
  pub o_below_bar : Bool
  pub o_cache : Bool
  -- the semantic cache, if `o_semantic`
  pub semantic_cache : Option (SemanticLookup F S)

module _ {F S : Type 0} ⦃fl : Float F⦄ (deps : GatewayDeps F S) (trials : ℕ → Trial F)
    (at : Moments F) where
  abbrev pub text_of : Job F S → String → String
  text_of j field = or_empty (lookup field j.metadata)

  -- The error of a step makes a row for the first model of the plan, and is raised again.
  unfoldable pub or_refuse :
      {A : Type 0} → Job F S → List String → RowOutcome → Step F A → Run F S A
  or_refuse j models outcome (done a) = lift (done a)
  or_refuse j models outcome crashes = lift crashes
  or_refuse j models outcome (refuses e) = do
    m ← lift (first_of models)
    persisted deps (refusal_row at j.metadata m 0 outcome e) (refuses e)

  -- `RateLimitExceededError` becomes a refusal; the readings of a wait end when it does.
  unfoldable pub acquired : Acquired F → Step F F
  acquired (waited elapsed) = done elapsed
  acquired exceeded = refuses rate_limited
  acquired waiting = crashes
  acquired key_error = crashes

  unfoldable pub wait : Job F S → List String → Run F S F
  unfolding acquired or_refuse
  wait j models = do
    result ← on_memory (λ m.
        let (a, m') =
          acquire at.polls at.started deps.rate_limiter (text_of j "workflow_id")
            (j.prompt_tokens + j.max_tokens) m in
        (some a, m'))
    or_refuse j models row_rate_limited (acquired result)

  -- `_fit_budget`, with what is left
  unfoldable pub fit_plan : Job F S → List String → Run F S ((List String × Bool) × F)
  unfolding or_refuse
  fit_plan j models = do
    left ←
        read_remaining deps trials at (text_of j "workflow_id") (text_of j "run_id") j.prompt_tokens
          j.max_tokens 0
    fitted ←
        or_refuse j models row_budget_exhausted
          (fit_budget deps.prices left models j.prompt_tokens j.max_tokens)
    lift (done (fitted, left))

  -- The response and the plan's flags as a completion, at a price and a cost.
  unfoldable pub completion :
      Job F S → Bool → Fallback F → String → ProviderResponse → ModelPrice F → F → Completion F
  completion j o_downgraded f chosen response price cost_usd = record {
    id = at.response_id;
    model = chosen;
    content = response.content;
    tool_calls = response.tool_calls;
    finish_reason = response.finish_reason;
    prompt_tokens = response.input_tokens;
    completion_tokens = response.output_tokens;
    total_tokens = response.input_tokens + response.output_tokens;
    x_roi = record {
      request_id = at.request_id;
      model = chosen;
      provider = price.provider;
      cost_usd = cost_usd;
      cache = miss;
      fallback_depth = f.depth;
      o_downgraded = o_downgraded;
      o_below_bar = j.o_below_bar;
      budget_remaining_usd = f.remaining ⊖ cost_usd;
      attempts = f.attempts;
    };
  }

  -- `if o_cache: …`
  unfoldable pub semantic_put :
      Option (SemanticLookup F S) → Job F S → Completion F → Gateway F S → Gateway F S
  semantic_put none j c s = s
  semantic_put (some cache) j c s = elim c.tool_calls [
    | [] ↦ record s {
      semantic =
          cache.store (prompt_text j.request.messages) (text_of j "step_class") j.request.model c
            s.semantic;
    }
    | _ ∷ _ ↦ s
  ]

  unfoldable pub cache_put : Job F S → Completion F → Gateway F S → Gateway F S
  unfolding semantic_put
  cache_put j c s =
      if j.o_cache then semantic_put j.semantic_cache j c (exact_put deps at c s) else s

  -- From the charge to the row.
  unfoldable pub settle :
      Job F S → Bool → Fallback F → String → ProviderResponse → Run F S (Completion F)
  unfolding completion cache_put
  settle j o_downgraded f chosen response = do
    price ← lift (priced (get deps.prices chosen))
    cost_usd ←
        lift (priced (actual deps.prices chosen response.input_tokens response.output_tokens))
    _ ←
        on_memory
          (charge at.charge_times at.day (text_of j "workflow_id") (text_of j "run_id") cost_usd)
    λ s.
        let c = completion j o_downgraded f chosen response price cost_usd in
        let row =
          row_of at j.metadata chosen price.provider response.input_tokens response.output_tokens
            cost_usd miss f.depth row_ok none in
        (done c, persist deps row (cache_put j c s))

  -- `raise GatewayError(502, …)`
  unfoldable pub fail : Job F S → List String → Fallback F → Run F S (Completion F)
  fail j models f = do
    m ← lift (last_of models)
    persisted deps (refusal_row at j.metadata m f.depth row_error (all_providers_failed f.attempts))
        (refuses (all_providers_failed f.attempts))

  unfoldable pub concluded :
      Job F S
      → List String
      → Bool
      → Fallback F
      → Option (String × ProviderResponse)
      → Run F S (Completion F)
  unfolding fail settle
  concluded j models o_downgraded f none = fail j models f
  concluded j models o_downgraded f (some (chosen, response)) =
      settle j o_downgraded f chosen response

  -- The end of `complete`, once the candidates have been tried.
  unfoldable pub conclude : Job F S → List String → Bool → Fallback F → Run F S (Completion F)
  unfolding concluded
  conclude j models o_downgraded f = concluded j models o_downgraded f f.response

  -- A request that no cache can answer.
  unfoldable pub compute : Job F S → List String → Run F S (Completion F)
  unfolding fit_plan conclude
  compute j models = do
    fitted ← fit_plan j models
    f ←
        fall deps trials at (text_of j "workflow_id") (text_of j "run_id") j.prompt_tokens
          j.max_tokens fitted.0.0 0 fitted.1 []
    conclude j fitted.0.0 fitted.0.1 f

  unfoldable pub answer :
      Job F S → Option (CacheKind × Completion F) → List String → Run F S (Completion F)
  unfolding compute
  answer j none models = compute j models
  answer j (some (kind, c)) models = serve_cached deps at j.metadata kind c

  unfoldable pub serve : Job F S → List String → Run F S (Completion F)
  unfolding wait answer
  serve j models = do
    _ ← wait j models
    hit ← cached deps at j.o_cache j.semantic_cache j.request (text_of j "step_class")
    answer j hit models

  abbrev pub job : Request → Dict String → Bool → Job F S
  job r d o_below_bar =
      let o_cache = str_eq (or_empty (lookup "cache" d)) "on" in
      record {
        request = r;
        metadata = d;
        max_tokens = resolved_max_tokens r;
        prompt_tokens = estimate_prompt_tokens r;
        o_below_bar = o_below_bar;
        o_cache = o_cache;
        semantic_cache =
            semantic_for deps at o_cache
              (lookup (or_empty (lookup "step_class" d)) deps.step_classes);
      }

  unfoldable pub complete : Request → Run F S (Completion F)
  unfolding serve
  complete r = do
    d ← lift (metadata deps.settings r)
    planned ← lift (
        plan deps.settings deps.prices deps.routing_table deps.step_classes r.model
          (or_empty (lookup "step_class" d)))
    serve (job r d planned.1) planned.0
