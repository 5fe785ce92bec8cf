-- ===== src/Gateway/Service/Spend.antt =====
-- What `complete` of gateway/service.py may spend, and what its answers report of that.
use agent_roi_console.Common.{
  ℕ, ◌≡◌, ◌≢◌, ◌≤◌, refl, subst, sym, Bool, true, false, List, [], String, Option, none, some,
}
use agent_roi_console.Common.Dict.{Dict}
use agent_roi_console.Float.{Float, IsMonotone, float, ◌⊖◌, ◌≼◌}
use agent_roi_console.Float.Laws.{sub_nonneg}
use agent_roi_console.Gateway.Pricing.{PriceTable, ModelPrice, Priced, get, actual, estimate}
use agent_roi_console.Gateway.Pricing
use agent_roi_console.Gateway.Pricing.Bounds.{IsPrice, actual-le-estimate}
use agent_roi_console.Gateway.Calls.{ProviderResponse, Trial}
use agent_roi_console.Gateway.Planning.{
  Request, Step, done, refuses, crashes, estimate_prompt_tokens, resolved_max_tokens,
}
use agent_roi_console.Gateway.Planning.Fit.{fit_budget-Choice}
use agent_roi_console.Gateway.Service.{
  CacheKind, miss, exact, semantic, RowOutcome, Completion, SemanticLookup, GatewayDeps, Moments,
  Gateway, persisted,
}
use agent_roi_console.Gateway.Service.Cached.{
  cached, serve_cached, recalled, semantic_get, or_semantic, map_some,
}
use agent_roi_console.Gateway.Service.Fallback.{Fallback, read_remaining}
use agent_roi_console.Gateway.Service.Complete.{
  Job, or_refuse, fit_plan, completion, settle, conclude, concluded, fail, compute, answer, serve,
  job, complete,
}
use agent_roi_console.Gateway.Service.Logic.{done-Post}
use agent_roi_console.Gateway.Service.Afford.{
  Gives, anything, after_giving, giving, giving_done, priced-ok, Fits, HeadModelFits, Answered,
  Choice-head, fall-Gives,
}

module _ {F S : Type 0} ⦃fl : Float F⦄ (laws : IsMonotone F) (deps : GatewayDeps F S)
    (trials : ℕ → Trial F) (at : Moments F) where
  -- Of a completion that no cache gave: the candidate's estimate was within what was left, the
  -- cost is that of its tokens, and the rest is reported.
  abbrev pub IsAfforded : ℕ → ℕ → Completion F → Type 0
  IsAfforded prompt_tokens max_tokens c =
      c.x_roi.cache ≡ miss
      → (left : F) × Fits deps.prices prompt_tokens max_tokens c.model left
        × (actual deps.prices c.model c.prompt_tokens c.completion_tokens
            ≡ Pricing.ok c.x_roi.cost_usd)
        × (c.x_roi.budget_remaining_usd ≡ left ⊖ c.x_roi.cost_usd)

  settle-Gives :
      (j : Job F S) (o_downgraded : Bool) (f : Fallback F) (chosen : String)
      (response : ProviderResponse)
      → Fits deps.prices j.prompt_tokens j.max_tokens chosen f.remaining
      → Gives
          (IsAfforded j.prompt_tokens j.max_tokens)
          (settle deps trials at j o_downgraded f chosen response)
  unfolding settle completion
  settle-Gives j o_downgraded f chosen response fits =
      after_giving (λ p. Unit) _ _ _ (anything _)
        (λ price u.
          after_giving
            (λ cost.
              actual deps.prices chosen response.input_tokens response.output_tokens
              ≡ Pricing.ok cost)
            _ _ _ (giving _ _ (λ cost k. priced-ok F _ cost k))
            (λ cost k.
              after_giving (λ u. Unit) _ _ _ (anything _)
                (λ u v s e. (f.remaining, fits, k, refl))))

  concluded-Gives :
      (j : Job F S) (models : List String) (o_downgraded : Bool) (f : Fallback F)
      (response : Option (String × ProviderResponse))
      → Answered deps.prices j.prompt_tokens j.max_tokens response f.remaining
      → Gives
          (IsAfforded j.prompt_tokens j.max_tokens)
          (concluded deps trials at j models o_downgraded f response)
  unfolding concluded fail persisted
  concluded-Gives j models o_downgraded f none h =
      after_giving (λ m. Unit) _ _ _ (anything _) (λ m u s. tt)
  concluded-Gives j models o_downgraded f (some (chosen, response)) h =
      settle-Gives j o_downgraded f chosen response h

  or_refuse-Gives :
      {A : Type 0} (D : A → Type 0) (j : Job F S) (models : List String) (outcome : RowOutcome)
      (r : Step F A)
      → ((a : A) → r ≡ done a → D a)
      → Gives D (or_refuse deps trials at j models outcome r)
  unfolding or_refuse persisted
  or_refuse-Gives D j models outcome (done a) h = giving_done D a (h a refl)
  or_refuse-Gives D j models outcome crashes h = giving D crashes (λ a e. h a e)
  or_refuse-Gives D j models outcome (refuses e) h =
      after_giving (λ m. Unit) _ _ _ (anything _) (λ m u s. tt)

  fit_plan-Gives :
      (j : Job F S) (models : List String)
      → Gives
          (λ p. HeadModelFits deps.prices j.prompt_tokens j.max_tokens p.0.0 p.1)
          (fit_plan deps trials at j models)
  unfolding fit_plan read_remaining
  fit_plan-Gives j models =
      after_giving (λ a. Unit) _ _ _ (anything _)
        (λ left u.
          after_giving (λ p. HeadModelFits deps.prices j.prompt_tokens j.max_tokens p.0 left) _ _ _
            (or_refuse-Gives _ j models _ _ (λ p e.
              Choice-head deps.prices j.prompt_tokens j.max_tokens left models p.0 p.1 (
                fit_budget-Choice laws deps.prices j.prompt_tokens j.max_tokens left models p.0 p.1
                  e)))
            (λ fitted h. giving_done _ _ h))

  compute-Gives :
      (j : Job F S) (models : List String)
      → Gives (IsAfforded j.prompt_tokens j.max_tokens) (compute deps trials at j models)
  unfolding compute conclude
  compute-Gives j models =
      after_giving (λ p. HeadModelFits deps.prices j.prompt_tokens j.max_tokens p.0.0 p.1) _ _ _
        (fit_plan-Gives j models)
        (λ fitted h.
          after_giving
            (λ f. Answered deps.prices j.prompt_tokens j.max_tokens f.response f.remaining) _ _ _
            (fall-Gives deps trials at _ _ _ _ fitted.0.0 0 fitted.1 [] (λ e. h))
            (λ f k. concluded-Gives j fitted.0.0 fitted.0.1 f f.response k))

  abbrev IsHit : Option (CacheKind × Completion F) → Type 0
  IsHit none = Unit
  IsHit (some (kind, c)) = kind ≢ miss

  semantic-IsHit : (found : Option (Completion F)) → IsHit (map_some semantic found)
  semantic-IsHit none = tt
  semantic-IsHit (some c) = λ e. cc

  or_semantic-Gives :
      (cache : Option (SemanticLookup F S)) (r : Request) (step_class : String)
      (found : Option (Completion F))
      → Gives IsHit (or_semantic deps at cache r step_class found)
  unfolding or_semantic semantic_get
  or_semantic-Gives none r step_class none = λ s. tt
  or_semantic-Gives (some cache) r step_class none = λ s. semantic-IsHit _
  or_semantic-Gives cache r step_class (some c) = giving_done IsHit (some (exact, c)) (λ e. cc)

  cached-Gives :
      (o_cache : Bool) (cache : Option (SemanticLookup F S)) (r : Request) (step_class : String)
      → Gives IsHit (cached deps at o_cache cache r step_class)
  unfolding cached
  cached-Gives false cache r step_class = giving_done IsHit none tt
  cached-Gives true cache r step_class =
      after_giving (λ a. Unit) _ _ _ (anything _)
        (λ found u. or_semantic-Gives cache r step_class found)

  serve_cached-Gives :
      (prompt_tokens max_tokens : ℕ) (d : Dict String) (kind : CacheKind) (c : Completion F)
      → kind ≢ miss
      → Gives (IsAfforded prompt_tokens max_tokens) (serve_cached deps at d kind c)
  unfolding serve_cached persisted recalled
  serve_cached-Gives prompt_tokens max_tokens d kind c h s e = absurd (h e)

  answer-Gives :
      (j : Job F S) (hit : Option (CacheKind × Completion F)) (models : List String)
      → IsHit hit
      → Gives (IsAfforded j.prompt_tokens j.max_tokens) (answer deps trials at j hit models)
  unfolding answer
  answer-Gives j none models h = compute-Gives j models
  answer-Gives j (some (kind, c)) models h =
      serve_cached-Gives j.prompt_tokens j.max_tokens j.metadata kind c h

  serve-Gives :
      (j : Job F S) (models : List String)
      → Gives (IsAfforded j.prompt_tokens j.max_tokens) (serve deps trials at j models)
  unfolding serve
  serve-Gives j models =
      after_giving (λ a. Unit) _ _ _ (anything _)
        (λ u v.
          after_giving IsHit _ _ _ (cached-Gives j.o_cache j.semantic_cache j.request _)
            (λ hit h. answer-Gives j hit models h))

  complete-Gives :
      (r : Request)
      → Gives
          (IsAfforded (estimate_prompt_tokens r) (resolved_max_tokens r))
          (complete deps trials at r)
  unfolding complete
  complete-Gives r =
      after_giving (λ d. Unit) _ _ _ (anything _)
        (λ d u.
          after_giving (λ p. Unit) _ _ _ (anything _)
            (λ planned v. serve-Gives (job deps trials at r d planned.1) planned.0))

  -- A completion that no cache gave comes from a model whose estimate, by the price table and the
  -- tokens of the request, is at most an amount such that the budget which the completion reports
  -- as remaining is that amount less its cost; and its cost is the price of the tokens it reports.
  pub complete-IsAfforded :
      (r : Request) (s : Gateway F S) (c : Completion F)
      → (complete deps trials at r s).0 ≡ done c
      → c.x_roi.cache ≡ miss
      → (left : F) × Fits deps.prices
          (estimate_prompt_tokens r)
          (resolved_max_tokens r)
          c.model
          left
        × (actual deps.prices c.model c.prompt_tokens c.completion_tokens
            ≡ Pricing.ok c.x_roi.cost_usd)
        × (c.x_roi.budget_remaining_usd ≡ left ⊖ c.x_roi.cost_usd)
  complete-IsAfforded r s c e =
      done-Post (λ x s'. Unit) (λ s'. Unit)
        (λ a s'. IsAfforded (estimate_prompt_tokens r) (resolved_max_tokens r) a) _ c e
        (complete-Gives r s)

  -- If prices are not negative and a response that no cache gave uses no more tokens than were
  -- estimated, the budget that it reports as left is not negative.
  pub complete-within_budget :
      (r : Request) (s : Gateway F S) (c : Completion F)
      → ((m : String) (p : ModelPrice F) → get deps.prices m ≡ Pricing.ok p → IsPrice p)
      → (complete deps trials at r s).0 ≡ done c
      → c.x_roi.cache ≡ miss
      → c.prompt_tokens ≤ estimate_prompt_tokens r
      → c.completion_tokens ≤ resolved_max_tokens r
      → float 0 ≼ c.x_roi.budget_remaining_usd
  complete-within_budget r s c nonneg e fresh h k =
      let (left, (est, q, fits), a, b) = complete-IsAfforded r s c e fresh in
      subst (λ x. float 0 ≼ x) (sym b)
        (sub_nonneg laws _ _ (
          laws.fle_trans _ _ _
            (actual-le-estimate laws deps.prices c.model _ _ _ _ est _ (nonneg c.model) q a h k)
            fits))
