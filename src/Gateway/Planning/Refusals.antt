-- ===== src/Gateway/Planning/Refusals.antt =====
-- The refusals of gateway/service.py, and which of them its steps raise.
use agent_roi_console.Common.{
  ℕ, subst, ◌≡◌, refl, Bool, true, false, List, [], ◌∷◌, String, Option, none, some, arith, str_eq,
  Option-cases, inl, inr, Bool-cases,
}
use agent_roi_console.Common.Dict.{Dict}
use agent_roi_console.Float.{Float, fle}
use agent_roi_console.Gateway.Router.{RoutingTable, RoutePlan}
use agent_roi_console.Gateway.Pricing.{PriceTable, has}
use agent_roi_console.Gateway.Planning.{
  Request, CallSettings, StepClass, GatewayError, missing_metadata, unknown_model,
  routing_table_missing, unknown_step_class, no_priced_candidate, rate_limited, budget_exhausted,
  all_providers_failed, Step, done, refuses, crashes, metadata, checked, plan, with_table, routed,
  priced_only, fit_budget, fit, downgraded, estimates,
}

-- The refusals that make a row: those behind the plan.
unfoldable pub is_logged : {F : Type 0} → GatewayError F → Bool
is_logged (missing_metadata fields) = false
is_logged (unknown_model m) = false
is_logged routing_table_missing = false
is_logged (unknown_step_class name) = false
is_logged (no_priced_candidate name) = false
is_logged rate_limited = true
is_logged (budget_exhausted left all) = true
is_logged (all_providers_failed attempts) = true

-- What holds of the refusal, if a step raises one.
abbrev pub Refuses : {F A : Type 0} → (GatewayError F → Type 0) → Step F A → Type 0
Refuses P (done a) = Unit
Refuses P (refuses e) = P e
Refuses P crashes = Unit

pub Refuses-refuses :
    {F A : Type 0} (P : GatewayError F → Type 0) (r : Step F A) {e : GatewayError F}
    → r ≡ refuses e
    → Refuses P r
    → P e
Refuses-refuses P (done a) h k = cc
Refuses-refuses P (refuses x) h k = subst P (ground arith) k
Refuses-refuses P crashes h k = cc

abbrev Quiet : {F A : Type 0} → Step F A → Type 0
Quiet = Refuses (λ e. is_logged e ≡ false)

checked-Quiet :
    (F : Type 0) (o_strict : Bool) (fs : List String) (d : Dict String)
    → Quiet (checked {F = F} o_strict fs d)
unfolding checked is_logged
checked-Quiet F o_strict [] d = tt
checked-Quiet F true (f ∷ fs) d = refl
checked-Quiet F false (f ∷ fs) d = tt

module _ {F : Type 0} ⦃fl : Float F⦄ where
  pub metadata-Quiet :
      (settings : CallSettings F) (r : Request)
      → Refuses (λ e. is_logged e ≡ false) (metadata settings r)
  unfolding metadata
  metadata-Quiet settings r = checked-Quiet F settings.o_strict _ _

  module _ (settings : CallSettings F) (prices : PriceTable F) (table : Option (RoutingTable F))
      (step_classes : Dict (StepClass F)) where
    priced_only-Quiet :
        (step_class : String) (below : Bool) (ms : List String)
        → Quiet (priced_only settings prices table step_classes step_class below ms)
    unfolding priced_only is_logged
    priced_only-Quiet step_class below [] = refl
    priced_only-Quiet step_class below (m ∷ ms) = tt

    routed-Quiet :
        (step_class : String) (p : Option RoutePlan)
        → Quiet (routed settings prices table step_classes step_class p)
    unfolding routed is_logged
    routed-Quiet step_class none = refl
    routed-Quiet step_class (some p) = priced_only-Quiet step_class p.o_below_bar _

    with_table-Quiet :
        (t : Option (RoutingTable F)) (step_class : String)
        → Quiet (with_table settings prices table step_classes t step_class)
    unfolding with_table is_logged
    with_table-Quiet none step_class = refl
    with_table-Quiet (some t) step_class = routed-Quiet step_class _

    pub plan-Quiet :
        (model step_class : String)
        → Refuses
            (λ e. is_logged e ≡ false)
            (plan settings prices table step_classes model step_class)
    unfolding plan is_logged
    plan-Quiet model step_class = elim (Bool-cases (str_eq model settings.routed_model)) [
      | inl e ↦ rw e (with_table-Quiet table step_class)
      | inr e ↦ rw e (elim (Bool-cases (has prices model)) [ inl k ↦ rw k tt | inr k ↦ rw k refl ])
    ]

  module _ (prices : PriceTable F) where
    downgraded-Logged :
        (left : F) (all es : List (String × F))
        → Refuses (λ e. is_logged e ≡ true) (downgraded prices left all es)
    unfolding downgraded is_logged
    downgraded-Logged left all [] = refl
    downgraded-Logged left all (e ∷ es) = tt

    fit-Logged :
        (left : F) (es : List (String × F)) → Refuses (λ e. is_logged e ≡ true) (fit prices left es)
    unfolding fit
    fit-Logged left [] = tt
    fit-Logged left ((m, e) ∷ es) = elim (Bool-cases (fle e left)) [
      | inl k ↦ rw k tt
      | inr k ↦ rw k (downgraded-Logged left ((m, e) ∷ es) _)
    ]

    pub fit_budget-Logged :
        (left : F) (models : List String) (prompt_tokens max_tokens : ℕ)
        → Refuses (λ e. is_logged e ≡ true) (fit_budget prices left models prompt_tokens max_tokens)
    unfolding fit_budget
    fit_budget-Logged left models prompt_tokens max_tokens =
        elim (Option-cases (estimates prices models prompt_tokens max_tokens)) [
          | inl k ↦ rw (fit_budget, k) tt
          | inr (es, k) ↦ rw (fit_budget, k) (fit-Logged left es)
        ]
