-- ===== src/Gateway/Planning/Fit.antt =====
-- The plan of gateway/service.py and its fit to the budget: which models may be called.
use agent_roi_console.Common.{
  ℕ, ◌≡◌, refl, ap, ◌∙◌, ◌≢◌, Bool, true, false, List, [], ◌∷◌, map, String, Option, none, some,
  arith, All, All-keep_if, keep_if, keep_if-All, none_kept, ◌⊎◌, inl, inr, str_eq, Option-cases,
  Bool-cases, subst,
}
use agent_roi_console.Common.Dict.{Dict}
use agent_roi_console.Common.Sort.{
  sorted, IsSorted, All-sorted, sorted-IsSorted, sorted-eq-nil, sorted-perm,
}
use mathlib.Core.List.{Perm}
use agent_roi_console.Float.{Float, IsMonotone, fle, ◌≼◌}
use agent_roi_console.Gateway.Router.{RoutingTable, RoutePlan}
use agent_roi_console.Gateway.Pricing.{PriceTable, has, estimate}
use agent_roi_console.Gateway.Pricing
use agent_roi_console.Gateway.Planning.{
  StepClass, CallSettings, GatewayError, budget_exhausted, done, refuses, Ensures, Ensures-done,
  Ensures-if, plan, estimates, with_estimate, by_estimate, fits, names, downgraded, fit, fit_budget,
  with_table, routed, priced_only,
}

module _ {F : Type 0} ⦃fl : Float F⦄ (settings : CallSettings F) (prices : PriceTable F)
    (table : Option (RoutingTable F)) (step_classes : Dict (StepClass F)) where
  abbrev IsPlan : List String × Bool → Type 0
  IsPlan (ms, below) = All (λ m. has prices m ≡ true) ms × (ms ≢ [])

  priced_only-IsPlan :
      (step_class : String) (below : Bool) (ms : List String)
      → All (λ m. has prices m ≡ true) ms
      → Ensures IsPlan (priced_only settings prices table step_classes step_class below ms)
  unfolding priced_only
  priced_only-IsPlan step_class below [] h = tt
  priced_only-IsPlan step_class below (m ∷ ms) h = (h, λ e. cc)

  routed-IsPlan :
      (step_class : String) (o : Option RoutePlan)
      → Ensures IsPlan (routed settings prices table step_classes step_class o)
  unfolding routed
  routed-IsPlan step_class none = tt
  routed-IsPlan step_class (some p) =
      priced_only-IsPlan step_class p.o_below_bar _ (keep_if-All (has prices) p.models)

  with_table-IsPlan :
      (t : Option (RoutingTable F)) (step_class : String)
      → Ensures IsPlan (with_table settings prices table step_classes t step_class)
  unfolding with_table
  with_table-IsPlan none step_class = tt
  with_table-IsPlan (some t) step_class = routed-IsPlan step_class _

  plan-IsPlan :
      (model step_class : String)
      → Ensures IsPlan (plan settings prices table step_classes model step_class)
  unfolding plan
  plan-IsPlan model step_class = elim (Bool-cases (str_eq model settings.routed_model)) [
    | inl auto ↦ rw auto (with_table-IsPlan table step_class)
    | inr single ↦ elim (Bool-cases (has prices model)) [
      | inl priced ↦ rw (single, priced) ((priced, tt), λ e. cc)
      | inr unpriced ↦ rw (single, unpriced) tt
    ]
  ]

  -- A plan is never empty, and every model of it has a price.
  pub plan-priced :
      (model step_class : String) (ms : List String) (below : Bool)
      → plan settings prices table step_classes model step_class ≡ done (ms, below)
      → All (λ m. has prices m ≡ true) ms × (ms ≢ [])
  plan-priced model step_class ms below h = Ensures-done IsPlan _ h (plan-IsPlan model step_class)

module _ {F : Type 0} ⦃fl : Float F⦄ (prices : PriceTable F) (prompt_tokens max_tokens : ℕ) where
  -- The pair of a model and its estimate.
  abbrev pub IsEstimate : String × F → Type 0
  IsEstimate (m, e) = estimate prices m prompt_tokens max_tokens ≡ Pricing.ok e

  with_estimate-All :
      (m : String) (p : Pricing.Priced F) (o : Option (List (String × F))) (es : List (String × F))
      → estimate prices m prompt_tokens max_tokens ≡ p
      → ((fs : List (String × F)) → o ≡ some fs → All IsEstimate fs)
      → with_estimate prices m p o ≡ some es
      → All IsEstimate es
  unfolding with_estimate
  with_estimate-All m (Pricing.ok e) (some fs) es h ih k =
      subst (λ x. All IsEstimate x) {x = (m, e) ∷ fs} (ground arith) (h, ih fs refl)
  with_estimate-All m (Pricing.ok e) none es h ih k = cc
  with_estimate-All m (Pricing.missing_price r) o es h ih k = cc
  with_estimate-All m Pricing.value_error o es h ih k = cc

  names-with_estimate :
      (m : String) (p : Pricing.Priced F) (o : Option (List (String × F))) (es : List (String × F))
      (ms : List String)
      → ((fs : List (String × F)) → o ≡ some fs → names fs ≡ ms)
      → with_estimate prices m p o ≡ some es
      → names es ≡ m ∷ ms
  unfolding with_estimate
  names-with_estimate m (Pricing.ok e) (some fs) es ms ih k =
      ap (map (λ x. x.0)) {x = es} {y = (m, e) ∷ fs} (ground arith) ∙ ap (◌∷◌ m) (ih fs refl)
  names-with_estimate m (Pricing.ok e) none es ms ih k = cc
  names-with_estimate m (Pricing.missing_price r) o es ms ih k = cc
  names-with_estimate m Pricing.value_error o es ms ih k = cc

  estimates-All :
      (ms : List String) (es : List (String × F))
      → estimates prices ms prompt_tokens max_tokens ≡ some es
      → All IsEstimate es
  unfolding estimates
  estimates-All [] es h = subst (λ x. All IsEstimate x) {x = []} (ground arith) tt
  estimates-All (m ∷ ms) es h = with_estimate-All m _ _ es refl (λ fs k. estimates-All ms fs k) h

  names-estimates :
      (ms : List String) (es : List (String × F))
      → estimates prices ms prompt_tokens max_tokens ≡ some es
      → names es ≡ ms
  unfolding estimates
  names-estimates [] es h = ap (map (λ x. x.0)) {x = es} {y = []} (ground arith)
  names-estimates (m ∷ ms) es h =
      names-with_estimate m _ _ es ms (λ fs k. names-estimates ms fs k) h

  -- The first of the estimates fits.
  abbrev pub HeadFits : F → List (String × F) → Type 0
  HeadFits left [] = ⊥
  HeadFits left (c ∷ cs) = c.1 ≼ left

  -- The first of the estimates does not fit.
  abbrev pub HeadOver : F → List (String × F) → Type 0
  HeadOver left [] = ⊥
  HeadOver left (c ∷ cs) = fle c.1 left ≡ false

  -- The plan `ms` with its estimates, whose first one does not fit, has exactly the estimates `cs`
  -- among those that fit, and these are ordered by their cost.
  abbrev pub Downgrade : F → List String → List (String × F) → Type 0
  Downgrade left ms cs =
      (all : List (String × F)) × (names all ≡ ms)
      × All IsEstimate all
      × HeadOver left all
      × Perm cs (keep_if (λ c. fle c.1 left) all)
      × IsSorted by_estimate cs

  -- The first choice fits what is left; after a downgrade the choices are all that do.
  abbrev pub Choice : F → List String → List String × Bool → Type 0
  Choice left ms (chosen, o_downgraded) =
      (cs : List (String × F)) × (names cs ≡ chosen)
      × All IsEstimate cs
      × HeadFits left cs
      × (((o_downgraded ≡ false) × (chosen ≡ ms)) ⊎ ((o_downgraded ≡ true) × Downgrade left ms cs))

  downgraded-Choice :
      (left : F) (ms : List String) (all cs : List (String × F))
      → All IsEstimate cs
      → All (λ c. c.1 ≼ left) cs
      → Downgrade left ms cs
      → Ensures (Choice left ms) (downgraded prices left all cs)
  unfolding downgraded
  downgraded-Choice left ms all [] p h s = tt
  downgraded-Choice left ms all (c ∷ cs) p h s = (c ∷ cs, refl, p, h.0, inr (refl, s))

module _ {F : Type 0} ⦃fl : Float F⦄ (laws : IsMonotone F) (prices : PriceTable F)
    (prompt_tokens max_tokens : ℕ) where
  over_budget-Choice :
      (left : F) (all : List (String × F))
      → All (IsEstimate prices prompt_tokens max_tokens) all
      → HeadOver prices prompt_tokens max_tokens left all
      → Ensures
          (Choice prices prompt_tokens max_tokens left (names all))
          (downgraded prices left all (sorted by_estimate (keep_if (fits left) all)))
  over_budget-Choice left all p over =
      let kept = keep_if (fits left) all in
      let IsPriced = IsEstimate prices prompt_tokens max_tokens in
      downgraded-Choice prices prompt_tokens max_tokens left (names all) all
        (sorted by_estimate kept)
        (All-sorted by_estimate IsPriced kept (All-keep_if IsPriced (fits left) all p))
        (All-sorted by_estimate (λ c. c.1 ≼ left) kept (keep_if-All (fits left) all))
        (
          all,
          refl,
          p,
          over,
          sorted-perm by_estimate kept,
          sorted-IsSorted by_estimate (λ a b. laws.fle_total a.1 b.1)
              (λ a b c. laws.fle_trans a.1 b.1 c.1) kept,
        )

  fit-Choice :
      (left : F) (es : List (String × F))
      → All (IsEstimate prices prompt_tokens max_tokens) es
      → Ensures (Choice prices prompt_tokens max_tokens left (names es)) (fit prices left es)
  unfolding fit
  fit-Choice left [] p = tt
  fit-Choice left ((m, e) ∷ es) p =
      Ensures-if (Choice prices prompt_tokens max_tokens left (m ∷ names es)) (fle e left) _ _
        (λ within. ((m, e) ∷ es, refl, p, within, inl (refl, refl)))
        (λ over. over_budget-Choice left ((m, e) ∷ es) p over)

  -- The models that a request may call after the budget is checked are all of the plan, whose
  -- first one fits what is left, or, where the first does not fit, exactly the models of the plan
  -- that fit, by their estimates, the cheapest first, and there is one.
  pub fit_budget-Choice :
      (left : F) (ms chosen : List String) (o_downgraded : Bool)
      → fit_budget prices left ms prompt_tokens max_tokens ≡ done (chosen, o_downgraded)
      → Choice prices prompt_tokens max_tokens left ms (chosen, o_downgraded)
  unfolding fit_budget
  fit_budget-Choice left ms chosen o_downgraded h =
      elim (Option-cases (estimates prices ms prompt_tokens max_tokens)) [
        | inl e ↦ absurd (ground arith)
        | inr (es, e) ↦
            subst
              (λ names. Choice prices prompt_tokens max_tokens left names (chosen, o_downgraded))
              (names-estimates prices prompt_tokens max_tokens ms es e)
              (Ensures-done _ (fit prices left es) (ground arith)
                (fit-Choice left es (estimates-All prices prompt_tokens max_tokens ms es e)))
      ]

  downgraded-refuses :
      (left : F) (all cs : List (String × F)) (error : GatewayError F)
      → downgraded prices left all cs ≡ refuses error
      → (cs ≡ []) × (error ≡ budget_exhausted left all)
  unfolding downgraded
  downgraded-refuses left all [] error h = (refl, ground arith)
  downgraded-refuses left all (c ∷ cs) error h = cc

  fit-refuses :
      (left : F) (es : List (String × F)) (error : GatewayError F)
      → fit prices left es ≡ refuses error
      → All (λ e. fle e.1 left ≡ false) es × (error ≡ budget_exhausted left es)
  unfolding fit
  fit-refuses left [] error h = cc
  fit-refuses left ((m, e) ∷ es) error h =
      let all : List (String × F) = (m, e) ∷ es in
      let (none_left, x) =
        downgraded-refuses left all (sorted by_estimate (keep_if (fits left) all)) error
          (ground arith) in
      (none_kept (fits left) all (sorted-eq-nil by_estimate _ none_left), x)

  -- A request is refused for its budget only if no model of the plan fits what is left, and the
  -- refusal reports that amount and the estimate of every model.
  pub fit_budget-refuses :
      (left : F) (ms : List String) (error : GatewayError F)
      → fit_budget prices left ms prompt_tokens max_tokens ≡ refuses error
      → (es : List (String × F)) × (names es ≡ ms)
        × All (IsEstimate prices prompt_tokens max_tokens) es
        × All (λ e. fle e.1 left ≡ false) es
        × (error ≡ budget_exhausted left es)
  unfolding fit_budget
  fit_budget-refuses left ms error h =
      elim (Option-cases (estimates prices ms prompt_tokens max_tokens)) [
        | inl e ↦ absurd (ground arith)
        | inr (es, e) ↦
            let (over, x) = fit-refuses left es error (ground arith) in
            (
              es,
              names-estimates prices prompt_tokens max_tokens ms es e,
              estimates-All prices prompt_tokens max_tokens ms es e,
              over,
              x,
            )
      ]
