-- ===== src/Gateway/Service/Rows.antt =====
-- The rows of `complete` in gateway/service.py: what each way out of it leaves in llm_calls.
use agent_roi_console.Common.{
  ℕ, ◌≡◌, subst, refl, ap, sym, ◌∙◌, Bool, true, List, [], ◌∷◌, ◌++◌, String, Option, none, some,
  arith,
}
use agent_roi_console.Common.Dict.{Dict}
use agent_roi_console.Float.{Float}
use agent_roi_console.Gateway.Calls.{ProviderResponse, Trial}
use agent_roi_console.Gateway.Planning.{Request, GatewayError, all_providers_failed, refuses}
use agent_roi_console.Gateway.Planning.Refusals.{is_logged, metadata-Quiet, plan-Quiet}
use agent_roi_console.Gateway.Service.{
  error_text, CacheKind, Completion, Row, GatewayDeps, Moments, Gateway, persist, persisted,
}
use agent_roi_console.Gateway.Service.Cached.{exact_put, serve_cached, recalled}
use agent_roi_console.Gateway.Service.Fallback.{Fallback}
use agent_roi_console.Gateway.Service.Complete.{
  Job, completion, cache_put, semantic_put, settle, conclude, concluded, fail, compute, answer,
  serve, job, complete,
}
use agent_roi_console.Gateway.Service.Logic.{Post}
use agent_roi_console.Gateway.Service.Silent.{
  Describes, Keeps, Logged, Refused, Recorded, Complete, priced-Quiet, memory-Silent, lift-Silent,
  bind-Complete, last_of-Quiet, persist-rows, wait-Silent, fit_plan-Silent, cached-Silent,
  fall-Silent,
}

module _ {F S : Type 0} ⦃fl : Float F⦄ (deps : GatewayDeps F S) (trials : ℕ → Trial F)
    (at : Moments F) (persists : deps.o_persist ≡ true) (rows : List (Row F)) where
  persist-Recorded :
      (row : Row F) (c : Completion F) (s : Gateway F S)
      → Keeps rows s
      → Describes row c
      → Recorded rows c (persist deps row s)
  persist-Recorded row c s h d =
      (row, persist-rows deps trials at persists rows row s ∙ ap (λ rs. rs ++ row ∷ []) h, d)

  serve_cached-Complete :
      (d : Dict String) (kind : CacheKind) (c : Completion F)
      → Complete rows (serve_cached deps at d kind c)
  unfolding serve_cached persisted recalled
  serve_cached-Complete d kind c s h =
      persist-Recorded _ (recalled deps at kind c) s h (refl, refl, refl, refl, refl, refl, refl)

  cache_put-rows :
      (j : Job F S) (c : Completion F) (s : Gateway F S)
      → (cache_put deps trials at j c s).rows ≡ s.rows
  unfolding cache_put semantic_put exact_put
  cache_put-rows j c s = ground arith

  settle-Complete :
      (j : Job F S) (o_downgraded : Bool) (f : Fallback F) (chosen : String)
      (response : ProviderResponse)
      → Complete rows (settle deps trials at j o_downgraded f chosen response)
  unfolding settle completion
  settle-Complete j o_downgraded f chosen response =
      bind-Complete _ _ (lift-Silent _ (priced-Quiet F _)) (λ price.
        bind-Complete _ _ (lift-Silent _ (priced-Quiet F _)) (λ cost_usd.
          bind-Complete _ _ (memory-Silent _) (λ u s h.
            persist-Recorded _
              (completion deps trials at j o_downgraded f chosen response price cost_usd) _
              (cache_put-rows j _ s ∙ h) (refl, refl, refl, refl, refl, refl, refl))))

  refused-Complete :
      (row : Row F) (e : GatewayError F)
      → is_logged e ≡ true
      → row.error ≡ some (error_text e)
      → Complete rows (persisted deps row (refuses e))
  unfolding persisted
  refused-Complete row e q k s h =
      subst (λ b. Logged rows b e (persist deps row s)) (sym q)
        (row, persist-rows deps trials at persists rows row s ∙ ap (λ rs. rs ++ row ∷ []) h, k)

  concluded-Complete :
      (j : Job F S) (models : List String) (o_downgraded : Bool) (f : Fallback F)
      (response : Option (String × ProviderResponse))
      → Complete rows (concluded deps trials at j models o_downgraded f response)
  unfolding concluded fail is_logged
  concluded-Complete j models o_downgraded f none =
      bind-Complete _ _ (lift-Silent _ (last_of-Quiet F models))
        (λ m. refused-Complete _ (all_providers_failed f.attempts) refl refl)
  concluded-Complete j models o_downgraded f (some (chosen, response)) =
      settle-Complete j o_downgraded f chosen response

  conclude-Complete :
      (j : Job F S) (models : List String) (o_downgraded : Bool) (f : Fallback F)
      → Complete rows (conclude deps trials at j models o_downgraded f)
  unfolding conclude
  conclude-Complete j models o_downgraded f = concluded-Complete j models o_downgraded f f.response

  answer-Complete :
      (j : Job F S) (hit : Option (CacheKind × Completion F)) (models : List String)
      → Complete rows (answer deps trials at j hit models)
  unfolding answer compute
  answer-Complete j none models =
      bind-Complete _ _ (fit_plan-Silent deps trials at persists rows j models) (λ fitted.
        bind-Complete _ _ (fall-Silent deps trials at persists rows _ _ _ _ _ _ _ _)
          (λ f. conclude-Complete j fitted.0.0 fitted.0.1 f))
  answer-Complete j (some (kind, c)) models = serve_cached-Complete j.metadata kind c

  serve-Complete :
      (j : Job F S) (models : List String) → Complete rows (serve deps trials at j models)
  unfolding serve
  serve-Complete j models =
      bind-Complete _ _ (wait-Silent deps trials at persists rows j models) (λ u.
        bind-Complete _ _
          (cached-Silent deps trials at persists rows j.o_cache j.semantic_cache j.request _)
          (λ hit. answer-Complete j hit models))

  complete-Complete : (r : Request) → Complete rows (complete deps trials at r)
  unfolding complete
  complete-Complete r = bind-Complete _ _ (lift-Silent _ (metadata-Quiet deps.settings r)) (λ d.
      bind-Complete _ _
        (lift-Silent _
          (plan-Quiet deps.settings deps.prices deps.routing_table deps.step_classes r.model _))
        (λ planned. serve-Complete (job deps trials at r d planned.1) planned.0))

-- Where rows are persisted, every completion adds exactly one row with its request, model, cost,
-- cache, depth and outcome ok; every refusal behind the plan adds exactly one row with its error;
-- and a refusal of the metadata or the plan, or an exception, adds none.
pub complete-rows :
    {F S : Type 0} ⦃fl : Float F⦄ (deps : GatewayDeps F S) (trials : ℕ → Trial F) (at : Moments F)
    (r : Request) (s : Gateway F S)
    → deps.o_persist ≡ true
    → Post (Refused s.rows) (Keeps s.rows) (Recorded s.rows) (complete deps trials at r s)
complete-rows deps trials at r s persists =
    complete-Complete deps trials at persists s.rows r s refl
