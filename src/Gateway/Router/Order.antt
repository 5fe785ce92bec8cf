-- ===== src/Gateway/Router/Order.antt =====
-- The order of gateway/router.py in which a plan lists its models.
use agent_roi_console.Common.{
  ◌≡◌, refl, ◌⊎◌, inl, inr, Bool, true, false, List, [], ◌∷◌, String, some, arith, All, All-mono,
  All-keep_if, keep_if, keep_if-All, none_kept, str_eq, subst, ◌≢◌, Bool-cases, Option-cases,
}
use mathlib.Core.List.{Perm}
use agent_roi_console.Common.Dict.{Dict, lookup}
use agent_roi_console.Common.Sort.{sorted, IsSorted, sorted-IsSorted, sorted-perm}
use agent_roi_console.Float.{Float, IsMonotone, fle, ◌≼◌}
use agent_roi_console.Gateway.Router.{
  Candidate, RoutePlan, RoutingTable, cheaper, better, load, model_names, meets, ranked, candidates,
  order, plan_route,
}

module _ {F : Type 0} ⦃fl : Float F⦄ (laws : IsMonotone F) where
  keep_if-IsSorted :
      (keep : Candidate F → Bool) (cs : List (Candidate F))
      → IsSorted cheaper cs
      → IsSorted cheaper (keep_if keep cs)
  keep_if-IsSorted keep [] s = tt
  keep_if-IsSorted keep (c ∷ cs) s =
      ground
        (arith, keep_if-IsSorted keep cs s.1, All-keep_if (λ d. cheaper c d ≡ true) keep cs s.0)

  sorted-cheaper : (cs : List (Candidate F)) → IsSorted cheaper (sorted cheaper cs)
  sorted-cheaper =
      sorted-IsSorted cheaper (λ a b. laws.fle_total a.mean_cost_usd b.mean_cost_usd)
        (λ a b c. laws.fle_trans a.mean_cost_usd b.mean_cost_usd c.mean_cost_usd)

  load-IsSorted :
      (entries : Dict (List (Candidate F))) (step_class : String) (cs : List (Candidate F))
      → lookup step_class (load entries) ≡ some cs
      → IsSorted cheaper cs
  unfolding load lookup
  load-IsSorted [] step_class cs h = cc
  load-IsSorted ((k, entry) ∷ rest) step_class cs h = elim (Bool-cases (str_eq k step_class)) [
    | inl e ↦ subst (IsSorted cheaper) (ground arith) (sorted-cheaper entry)
    | inr e ↦ load-IsSorted rest step_class cs (ground arith)
  ]

  better_total : (a b : Candidate F) → (better a b ≡ true) ⊎ (better b a ≡ true)
  better_total a b = ground (
    arith,
    laws.fle_total a.step_success b.step_success,
    laws.fle_total a.mean_cost_usd b.mean_cost_usd,
  )

  better_trans : (a b c : Candidate F) → better a b ≡ true → better b c ≡ true → better a c ≡ true
  better_trans a b c h k = ground (
    arith,
    laws.fle_trans a.step_success b.step_success c.step_success,
    laws.fle_trans c.step_success b.step_success a.step_success,
    laws.fle_trans b.step_success a.step_success c.step_success,
    laws.fle_trans a.step_success c.step_success b.step_success,
    laws.fle_total a.step_success c.step_success,
    laws.fle_trans a.mean_cost_usd b.mean_cost_usd c.mean_cost_usd,
  )

  better-success : (a b : Candidate F) → better a b ≡ true → b.step_success ≼ a.step_success
  better-success a b h = ground arith

-- `names` are the models of `cs`, in their order.
abbrev pub Names : {F : Type 0} → List (Candidate F) → List String → Type 0
Names cs names = model_names cs ≡ names

module _ {F : Type 0} ⦃fl : Float F⦄ where
  -- The plan is read off the candidates that meet the bar, or off all of them.
  ranked-cases :
      (kept all : List (Candidate F))
      → (((ranked kept all).o_below_bar ≡ false)
          × (model_names kept ≡ (ranked kept all).models)
          × (kept ≢ []))
        ⊎ (((ranked kept all).o_below_bar ≡ true)
            × (model_names (sorted better all) ≡ (ranked kept all).models)
            × (kept ≡ []))
  unfolding ranked
  ranked-cases [] all = inr (refl, refl, refl)
  ranked-cases (c ∷ cs) all = inl (refl, refl, λ e. cc)

  plan_route-eq-some :
      (table : RoutingTable F) (step_class : String) (bar : F) (plan : RoutePlan)
      → plan_route table step_class bar ≡ some plan
      → (all : List (Candidate F)) × (lookup step_class table ≡ some all)
        × (ranked (keep_if (meets bar) all) all ≡ plan)
  unfolding plan_route order candidates
  plan_route-eq-some table step_class bar plan h = elim (Option-cases (lookup step_class table)) [
    | inl e ↦ absurd (ground arith)
    | inr (all, e) ↦ (all, e, ground arith)
  ]

module _ {F : Type 0} ⦃fl : Float F⦄ (laws : IsMonotone F) where
  -- A plan at the bar, from a loaded table, is the non-empty list of the candidates of its step
  -- class that meet the bar, ordered by their cost.
  pub plan_route-qualifying :
      (entries : Dict (List (Candidate F))) (step_class : String) (bar : F) (plan : RoutePlan)
      → plan_route (load entries) step_class bar ≡ some plan
      → plan.o_below_bar ≡ false
      → (all : List (Candidate F)) × (lookup step_class (load entries) ≡ some all)
        × Names (keep_if (meets bar) all) plan.models
        × (keep_if (meets bar) all ≢ [])
        × All (λ c. bar ≼ c.step_success) (keep_if (meets bar) all)
        × IsSorted cheaper (keep_if (meets bar) all)
  plan_route-qualifying entries step_class bar plan h at_bar =
      let (all, found, e) = plan_route-eq-some (load entries) step_class bar plan h in
      let parts = ranked-cases (keep_if (meets bar) all) all in
      (
        all,
        found,
        ground (arith, parts),
        ground (arith, parts),
        keep_if-All (meets bar) all,
        keep_if-IsSorted laws (meets bar) all (load-IsSorted laws entries step_class all found),
      )

  IsSorted-mono :
      (cs : List (Candidate F))
      → IsSorted better cs
      → IsSorted (λ a b. fle b.step_success a.step_success) cs
  IsSorted-mono [] s = tt
  IsSorted-mono (c ∷ cs) s =
      (All-mono (λ d h. better-success laws c d h) cs s.0, IsSorted-mono cs s.1)

  -- A plan below the bar names all candidates of its step class, none of which meets the bar,
  -- ordered by their success from the best.
  plan_route-below_bar :
      (table : RoutingTable F) (step_class : String) (bar : F) (plan : RoutePlan)
      → plan_route table step_class bar ≡ some plan
      → plan.o_below_bar ≡ true
      → (all : List (Candidate F)) × (cs : List (Candidate F)) × (lookup step_class table
          ≡ some all)
        × All (λ c. meets bar c ≡ false) all
        × Perm cs all
        × Names cs plan.models
        × IsSorted (λ a b. fle b.step_success a.step_success) cs
  plan_route-below_bar table step_class bar plan h below =
      let (all, found, e) = plan_route-eq-some table step_class bar plan h in
      let parts = ranked-cases (keep_if (meets bar) all) all in
      (
        all,
        sorted better all,
        found,
        none_kept (meets bar) all (ground (arith, parts)),
        sorted-perm better all,
        ground (arith, parts),
        IsSorted-mono _ (sorted-IsSorted better (better_total laws) (better_trans laws) all),
      )
