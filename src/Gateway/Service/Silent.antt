-- ===== src/Gateway/Service/Silent.antt =====
-- The parts of `complete` of gateway/service.py that add no row unless they refuse.
use agent_roi_console.Common.{
  ℕ, ◌≡◌, subst, refl, ap, sym, ◌∙◌, Bool, true, false, List, [], ◌∷◌, ◌++◌, String, Option, none,
  some, str_eq, inl, inr, Bool-cases, Option-cases, zero, suc,
}
use agent_roi_console.Float.{Float}
use agent_roi_console.Gateway.Pricing.{PriceTable, ModelPrice, Priced, has, get, actual, estimate}
use agent_roi_console.Gateway.Pricing
use agent_roi_console.Gateway.Store.{MemoryStore}
use agent_roi_console.Gateway.RateLimit.{Acquired, waited, exceeded, waiting, key_error}
use agent_roi_console.Gateway.Calls.{ProviderResponse, Trial, Attempt}
use agent_roi_console.Gateway.Planning.{Request, GatewayError, Step, done, refuses, crashes}
use agent_roi_console.Gateway.Planning.Refusals.{
  is_logged, Refuses, Refuses-refuses, fit_budget-Logged,
}
use agent_roi_console.Gateway.Service.{
  exact, RowOutcome, row_ok, row_rate_limited, row_budget_exhausted, Completion, Row,
  SemanticLookup, GatewayDeps, Moments, Gateway, Run, ◌>>=◌, lift, on_memory, priced, persist,
  persisted, refusal_row, error_text,
}
use agent_roi_console.Gateway.Service.Cached.{exact_get, cached, semantic_get, decoded, or_semantic}
use agent_roi_console.Gateway.Service.Fallback.{
  Fallback, fall, read_remaining, recheck, call, or_next, or_skip,
}
use agent_roi_console.Gateway.Service.Complete.{
  Job, or_refuse, acquired, wait, fit_plan, first_of, last_of,
}
use agent_roi_console.Gateway.Service.Logic.{Post, bind, from_memory, from_step}

-- The row of a completion: its request, its model, its cost and how it came about.
abbrev pub Describes : {F : Type 0} → Row F → Completion F → Type 0
Describes row c =
    (row.request_id ≡ c.x_roi.request_id)
    × (row.model ≡ c.x_roi.model)
    × (row.cost_usd ≡ c.x_roi.cost_usd)
    × (row.cache ≡ c.x_roi.cache)
    × (row.fallback_depth ≡ c.x_roi.fallback_depth)
    × (row.outcome ≡ row_ok)
    × (row.error ≡ none)

module _ {F S : Type 0} (rows : List (Row F)) where
  abbrev pub Keeps : Gateway F S → Type 0
  Keeps s = s.rows ≡ rows

  abbrev pub Logged : Bool → GatewayError F → Gateway F S → Type 0
  Logged false e s = s.rows ≡ rows
  Logged true e s = (row : Row F) × (s.rows ≡ rows ++ row ∷ []) × (row.error ≡ some (error_text e))

  abbrev pub Refused : GatewayError F → Gateway F S → Type 0
  Refused e s = Logged (is_logged e) e s

  abbrev pub Recorded : Completion F → Gateway F S → Type 0
  Recorded c s = (row : Row F) × (s.rows ≡ rows ++ row ∷ []) × Describes row c

  abbrev pub Silent : {A : Type 0} → Run F S A → Type 0
  Silent m = (s : Gateway F S) → Keeps s → Post Refused Keeps (λ a s'. Keeps s') (m s)

  abbrev pub Complete : Run F S (Completion F) → Type 0
  Complete m = (s : Gateway F S) → Keeps s → Post Refused Keeps Recorded (m s)

pub priced-Quiet :
    (F : Type 0) {A : Type 0} (p : Priced A) → Refuses (λ e. is_logged e ≡ false) (priced {F = F} p)
priced-Quiet F (Pricing.ok a) = tt
priced-Quiet F (Pricing.missing_price reason) = tt
priced-Quiet F Pricing.value_error = tt

pub last_of-Quiet :
    (F : Type 0) (ms : List String) → Refuses (λ e. is_logged e ≡ false) (last_of {F = F} ms)
last_of-Quiet F [] = tt
last_of-Quiet F (m ∷ []) = tt
last_of-Quiet F (m ∷ n ∷ ms) = last_of-Quiet F (n ∷ ms)

module _ {F S : Type 0} {rows : List (Row F)} where
  pub memory-Silent :
      {A : Type 0} (f : MemoryStore F → Option A × MemoryStore F)
      → Silent rows (on_memory {S = S} f)
  memory-Silent f s h =
      from_memory (Refused rows) (Keeps rows) (λ a s'. Keeps rows s') f s (λ m. h) (λ a m e. h)

  pub lift-Silent :
      {A : Type 0} (r : Step F A)
      → Refuses (λ e. is_logged e ≡ false) r
      → Silent rows (lift {S = S} r)
  lift-Silent r quiet s h =
      from_step (Refused rows) (Keeps rows) (λ a s'. Keeps rows s') r s (λ a e. h)
        (λ e k. subst (λ b. Logged rows b e s) (sym (Refuses-refuses _ r k quiet)) h) h

  -- Sequencing after a silent part.
  pub bind-Silent :
      {A B : Type 0} (m : Run F S A) (f : A → Run F S B)
      → Silent rows m
      → ((a : A) → Silent rows (f a))
      → Silent rows (m >>= f)
  bind-Silent m f h k s q =
      bind (Refused rows) (Keeps rows) (λ a s'. Keeps rows s') (λ a s'. Keeps rows s') m f s (h s q)
        k

  pub bind-Complete :
      {A : Type 0} (m : Run F S A) (f : A → Run F S (Completion F))
      → Silent rows m
      → ((a : A) → Complete rows (f a))
      → Complete rows (m >>= f)
  bind-Complete m f h k s q =
      bind (Refused rows) (Keeps rows) (λ a s'. Keeps rows s') (Recorded rows) m f s (h s q) k

  pub first_of-Silent : (ms : List String) → Silent rows (lift {S = S} (first_of {F = F} ms))
  first_of-Silent [] = lift-Silent crashes tt
  first_of-Silent (m ∷ ms) = lift-Silent (done m) tt

module _ {F S : Type 0} ⦃fl : Float F⦄ (deps : GatewayDeps F S) (trials : ℕ → Trial F)
    (at : Moments F) (persists : deps.o_persist ≡ true) (rows : List (Row F)) where
  pub persist-rows :
      (row : Row F) (s : Gateway F S) → (persist deps row s).rows ≡ s.rows ++ row ∷ []
  unfolding persist
  persist-rows row s = rw persists refl

  pub persisted-Silent :
      (A : Type 0) (row : Row F) (e : GatewayError F)
      → is_logged e ≡ true
      → row.error ≡ some (error_text e)
      → Silent rows (persisted deps {A = A} row (refuses e))
  unfolding persisted
  persisted-Silent A row e q k s h =
      subst (λ b. Logged rows b e (persist deps row s)) (sym q)
        (row, persist-rows row s ∙ ap (λ rs. rs ++ row ∷ []) h, k)

  pub or_refuse-Silent :
      {A : Type 0} (j : Job F S) (models : List String) (outcome : RowOutcome) (r : Step F A)
      → Refuses (λ e. is_logged e ≡ true) r
      → Silent rows (or_refuse deps trials at j models outcome r)
  unfolding or_refuse
  or_refuse-Silent j models outcome (done a) q = lift-Silent (done a) tt
  or_refuse-Silent j models outcome crashes q = lift-Silent crashes tt
  or_refuse-Silent j models outcome (refuses e) q =
      bind-Silent _ _ (first_of-Silent models)
        (λ m. persisted-Silent _ (refusal_row at j.metadata m 0 outcome e) e q refl)

  acquired-Logged : (a : Acquired F) → Refuses (λ e. is_logged e ≡ true) (acquired deps trials at a)
  unfolding acquired is_logged
  acquired-Logged (waited x) = tt
  acquired-Logged exceeded = refl
  acquired-Logged waiting = tt
  acquired-Logged key_error = tt

  pub wait-Silent :
      (j : Job F S) (models : List String) → Silent rows (wait deps trials at j models)
  unfolding wait
  wait-Silent j models = bind-Silent _ _ (memory-Silent _) (λ a.
      or_refuse-Silent j models row_rate_limited (acquired deps trials at a) (acquired-Logged a))

  pub fit_plan-Silent :
      (j : Job F S) (models : List String) → Silent rows (fit_plan deps trials at j models)
  unfolding fit_plan read_remaining
  fit_plan-Silent j models = bind-Silent _ _ (memory-Silent _) (λ left.
      bind-Silent _ _
        (or_refuse-Silent j models row_budget_exhausted _
          (fit_budget-Logged deps.prices left models _ _))
        (λ fitted. lift-Silent (done (fitted, left)) tt))

  pub decoded-Silent : (v : Option String) → Silent rows (lift {S = S} (decoded deps at v))
  unfolding decoded
  decoded-Silent none = lift-Silent (done none) tt
  decoded-Silent (some t) = lift-Silent _ (elim (Bool-cases (str_eq t "")) [
    | inl e ↦ rw e tt
    | inr e ↦
        rw e (elim (Option-cases (deps.codec.loads t)) [ inl k ↦ rw k tt | inr (c, k) ↦ rw k tt ])
  ])

  pub semantic_get-Silent :
      (cache : Option (SemanticLookup F S)) (r : Request) (step_class : String)
      → Silent rows (semantic_get deps at cache r step_class)
  unfolding semantic_get
  semantic_get-Silent none r step_class s h = h
  semantic_get-Silent (some cache) r step_class s h = h

  pub or_semantic-Silent :
      (cache : Option (SemanticLookup F S)) (r : Request) (step_class : String)
      (found : Option (Completion F))
      → Silent rows (or_semantic deps at cache r step_class found)
  unfolding or_semantic
  or_semantic-Silent cache r step_class none = semantic_get-Silent cache r step_class
  or_semantic-Silent cache r step_class (some c) = lift-Silent (done (some (exact, c))) tt

  pub cached-Silent :
      (o_cache : Bool) (cache : Option (SemanticLookup F S)) (r : Request) (step_class : String)
      → Silent rows (cached deps at o_cache cache r step_class)
  unfolding cached exact_get
  cached-Silent false cache r step_class = lift-Silent (done none) tt
  cached-Silent true cache r step_class =
      bind-Silent _ _ (bind-Silent _ _ (memory-Silent _) decoded-Silent)
        (or_semantic-Silent cache r step_class)

  module _ (workflow_id run_id : String) (prompt_tokens max_tokens : ℕ) where
    pub recheck-Silent :
        (depth : ℕ) (model : String) (left : F)
        → Silent rows
            (recheck deps trials at workflow_id run_id prompt_tokens max_tokens depth model left)
    unfolding recheck read_remaining
    recheck-Silent zero model left = lift-Silent (done (left, true)) tt
    recheck-Silent (suc depth) model left = bind-Silent _ _ (memory-Silent _) (λ now_left.
        bind-Silent _ _ (lift-Silent _ (priced-Quiet F _)) (λ cost. lift-Silent (done _) tt))

    pub call-Silent :
        (model : String)
        → Silent rows (call deps trials at workflow_id run_id prompt_tokens max_tokens model)
    unfolding call
    call-Silent model = bind-Silent _ _ (lift-Silent _ (priced-Quiet F _)) (λ price s h. h)

    pub or_next-Silent :
        (m : String) (depth : ℕ) (left : F) (attempts : List (Attempt F))
        (next : List (Attempt F) → Run F S (Fallback F))
        (called : Option ProviderResponse × List (Attempt F))
        → ((tried : List (Attempt F)) → Silent rows (next tried))
        → Silent rows (
            or_next deps trials at workflow_id run_id prompt_tokens max_tokens m depth left attempts
              next called)
    unfolding or_next
    or_next-Silent m depth left attempts next (none, tried) h = h _
    or_next-Silent m depth left attempts next (some r, tried) h = lift-Silent (done _) tt

    pub or_skip-Silent :
        (m : String) (depth : ℕ) (attempts : List (Attempt F))
        (next : F → List (Attempt F) → Run F S (Fallback F)) (check : F × Bool)
        → ((left : F) (tried : List (Attempt F)) → Silent rows (next left tried))
        → Silent rows (
            or_skip deps trials at workflow_id run_id prompt_tokens max_tokens m depth attempts next
              check)
    unfolding or_skip
    or_skip-Silent m depth attempts next (left, false) h = h left _
    or_skip-Silent m depth attempts next (left, true) h =
        bind-Silent _ _ (call-Silent m)
          (λ called. or_next-Silent m depth left attempts (next left) called (h left))

    pub fall-Silent :
        (models : List String) (depth : ℕ) (left : F) (attempts : List (Attempt F))
        → Silent rows (
            fall deps trials at workflow_id run_id prompt_tokens max_tokens models depth left
              attempts)
    unfolding fall
    fall-Silent [] depth left attempts = lift-Silent (done _) tt
    fall-Silent (m ∷ ms) depth left attempts =
        bind-Silent _ _ (recheck-Silent depth m left)
          (λ check. or_skip-Silent m depth attempts _ check (fall-Silent ms (suc depth)))
