-- ===== src/Roi/Summary.antt =====
-- Summaries and the sensitivity grid of roi/compute.py.
use agent_roi_console.Common.{
  suc, ◌+◌, ◌*◌, ◌≤◌, ◌≡◌, ◌≢◌, refl, ap, Bool, true, false, List, [], ◌∷◌, Option, none, some,
  arith, length, ◌↔◌,
}
use agent_roi_console.Float.{Float, IsMonotone, float, ◌≼◌}
use agent_roi_console.Roi.{
  Economics, TaskRoi, RunCost, RunSummary, Scenario, of_bool, count_success, and_roi, roi_list,
  summary_of, summary_for, summarize_runs, scenario_of, grid_entry, and_scenario, over_rates,
  sensitivity_grid,
}
use agent_roi_console.Roi.Monotone.{task_roi_total}

module _ {F : Type 0} ⦃fl : Float F⦄ (laws : IsMonotone F) where
  zero-le-one : float {F = F} 0 ≼ float 1
  zero-le-one = laws.float_mono 0 1 (omega arith)

  of_bool_bounds : (b : Bool) → (float {F = F} 0 ≼ of_bool b) × (of_bool {F = F} b ≼ float 1)
  of_bool_bounds true = (zero-le-one, laws.fle_refl (float 1))
  of_bool_bounds false = (laws.fle_refl (float 0), zero-le-one)

  roi_list_total :
      (runs : List (RunCost F)) (e : Economics F)
      → (ts : List (TaskRoi F)) × (roi_list runs e ≡ some ts) × (length ts ≡ length runs)
  unfolding roi_list and_roi
  roi_list_total [] e = ([], refl, refl)
  roi_list_total (r ∷ rs) e =
      let (low, high) = of_bool_bounds r.success in
      let (t, p) = task_roi_total (of_bool r.success) r.llm_cost_usd e r.tool_cost_usd low high in
      let (ts, q, n) = roi_list_total rs e in (t ∷ ts, rw (p, q) refl, ap suc n)

  count_success-le : (runs : List (RunCost F)) → count_success runs ≤ length runs
  unfolding count_success
  count_success-le [] = omega arith
  count_success-le (r ∷ rs) = ground (arith, count_success-le rs)

  -- The costs per success are there exactly if a run succeeded.
  per_success_iff :
      (runs : List (RunCost F)) (e : Economics F) (ts : List (TaskRoi F))
      → ((summary_of runs e ts).cost_per_success_usd ≡ none)
        ↔ ((summary_of runs e ts).n_success ≡ 0)
  unfolding summary_of
  per_success_iff runs e ts = ground arith

  -- A set of runs that is not empty always has a summary, of as many runs, with no more successes
  -- than runs, and without a cost per success exactly if there is no success.
  summarize_runs_total :
      (runs : List (RunCost F)) (e : Economics F)
      → runs ≢ []
      → (s : RunSummary F) × (summarize_runs runs e ≡ some (some s))
        × (s.n_runs ≡ length runs)
        × (s.n_success ≤ s.n_runs)
        × ((s.cost_per_success_usd ≡ none) ↔ (s.n_success ≡ 0))
  unfolding summarize_runs summary_for summary_of
  summarize_runs_total [] e h = absurd (h refl)
  summarize_runs_total (r ∷ rs) e h =
      let (ts, q, n) = roi_list_total (r ∷ rs) e in
      (
        summary_of (r ∷ rs) e ts,
        rw (summarize_runs, q) refl,
        refl,
        count_success-le (r ∷ rs),
        per_success_iff (r ∷ rs) e ts,
      )

  some_summary :
      (runs : List (RunCost F)) (e : Economics F)
      → (s : Option (RunSummary F)) × (summarize_runs runs e ≡ some s)
  unfolding summarize_runs
  some_summary [] e = (none, refl)
  some_summary (r ∷ rs) e =
      let (s, p, _, _, _) = summarize_runs_total (r ∷ rs) e (λ q. cc) in (some s, p)

  over_rates_total :
      (runs : List (RunCost F)) (e : Economics F) (multiplier : F) (rates : List F)
      (rest : List (Scenario F))
      → (grid : List (Scenario F)) × (over_rates runs e multiplier rates (some rest) ≡ some grid)
        × (length grid ≡ length rates + length rest)
  unfolding over_rates and_scenario
  over_rates_total runs e multiplier [] rest = (rest, refl, omega arith)
  over_rates_total runs e multiplier (rate ∷ rates) rest =
      let (s, p) = some_summary runs (scenario_of e multiplier rate) in
      let (grid, q, n) = over_rates_total runs e multiplier rates rest in
      (
        grid_entry (scenario_of e multiplier rate) multiplier s ∷ grid,
        rw (p, q) refl,
        omega (arith, n),
      )

  -- The sensitivity grid always exists, with one entry for each pair of a multiplier and a labor
  -- rate.
  pub sensitivity_grid_total :
      (runs : List (RunCost F)) (e : Economics F) (multipliers rates : List F)
      → (grid : List (Scenario F)) × (sensitivity_grid runs e multipliers rates ≡ some grid)
        × (length grid ≡ length multipliers * length rates)
  unfolding sensitivity_grid
  sensitivity_grid_total runs e [] rates = ([], refl, omega arith)
  sensitivity_grid_total runs e (m ∷ ms) rates =
      let (rest, p, n) = sensitivity_grid_total runs e ms rates in
      let (grid, q, k) = over_rates_total runs e m rates rest in (grid, rw p q, omega (arith, n, k))
