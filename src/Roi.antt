-- ===== src/Roi.antt =====
-- roi/compute.py: the return of a task, of a set of runs, and the sensitivity grid. The Wilson
-- interval of a summary is left out.
pub mod Monotone
pub mod Summary
use agent_roi_console.Common.{
  ℕ, suc, Bool, true, false, not, ◌&&◌, List, [], ◌∷◌, ◌++◌, map, foldl, Option, none, some, length,
  ◌==◌, if◌then◌else◌,
}
use agent_roi_console.Float.{Float, fle, flt, float, ◌⊕◌, ◌⊖◌, ◌⊗◌, ◌⊘◌}

pub record Economics (F : Type 0) : Type 0 where
  pub minutes_per_task : F
  pub labor_rate_usd_per_hour : F
  pub review_minutes_per_task : F
  pub fix_minutes_per_failure : F
  pub tool_cost_usd_per_task : F

pub record TaskRoi (F : Type 0) : Type 0 where
  pub value_usd : F
  pub human_cost_usd : F
  pub machine_cost_usd : F
  pub cost_usd : F
  pub net_usd : F

-- A dict of `run_list`.
pub record RunCost (F : Type 0) : Type 0 where
  pub success : Bool
  pub llm_cost_usd : F
  pub tool_cost_usd : Option F

pub record RunSummary (F : Type 0) : Type 0 where
  pub n_runs : ℕ
  pub n_success : ℕ
  pub value_usd : F
  pub human_cost_usd : F
  pub machine_cost_usd : F
  pub cost_usd : F
  pub net_roi_usd : F
  pub net_roi_per_task_usd : F
  pub roi_ratio : Option F
  pub machine_cost_per_success_usd : Option F
  pub cost_per_success_usd : Option F
  pub break_even_success_rate : Option F
  pub break_even_minutes_per_task : Option F

pub record Scenario (F : Type 0) : Type 0 where
  pub minutes_multiplier : F
  pub minutes_per_task : F
  pub labor_rate_usd_per_hour : F
  -- `none` where there are no runs
  pub summary : Option (RunSummary F)

module _ {F : Type 0} ⦃fl : Float F⦄ where
  abbrev pub minutes_per_hour : F
  minutes_per_hour = float 60

  abbrev pub rate_per_minute : Economics F → F
  rate_per_minute e = e.labor_rate_usd_per_hour ⊘ minutes_per_hour

  abbrev pub or_configured : Option F → F → F
  or_configured none configured = configured
  or_configured (some cost) configured = cost

  abbrev pub value_of : F → Economics F → F
  value_of success e = success ⊗ e.minutes_per_task ⊗ rate_per_minute e

  abbrev pub human_cost_of : F → Economics F → F
  human_cost_of success e =
      (e.review_minutes_per_task ⊕ (float 1 ⊖ success) ⊗ e.fix_minutes_per_failure)
      ⊗ rate_per_minute e

  -- `none` is the `ValueError` of a success outside of [0, 1].
  unfoldable pub task_roi : F → F → Economics F → Option F → Option (TaskRoi F)
  task_roi success llm_cost_usd e tool_cost_usd =
      if fle (float 0) success && fle success (float 1)
      then (let value = value_of success e in
          let human_cost = human_cost_of success e in
          let machine_cost = llm_cost_usd ⊕ or_configured tool_cost_usd e.tool_cost_usd_per_task in
          let cost = machine_cost ⊕ human_cost in
          some (record {
            value_usd = value;
            human_cost_usd = human_cost;
            machine_cost_usd = machine_cost;
            cost_usd = cost;
            net_usd = value ⊖ cost;
          }))
      else none

  unfoldable pub break_even_success_rate : F → Economics F → Option F
  break_even_success_rate mean_machine_cost_usd e =
      let rate = rate_per_minute e in
      let denominator = (e.minutes_per_task ⊕ e.fix_minutes_per_failure) ⊗ rate in
      if fle denominator (float 0)
      then none
      else (let success =
            (mean_machine_cost_usd ⊕ (e.review_minutes_per_task ⊕ e.fix_minutes_per_failure) ⊗ rate)
            ⊘ denominator in
          if fle success (float 1) then some success else none)

  -- `float(bool(…))`
  abbrev pub of_bool : Bool → F
  of_bool true = float 1
  of_bool false = float 0

  unfoldable pub count_success : List (RunCost F) → ℕ
  count_success [] = 0
  count_success (r ∷ rs) = let rest = count_success rs in if r.success then suc rest else rest

  and_roi : Option (TaskRoi F) → Option (List (TaskRoi F)) → Option (List (TaskRoi F))
  and_roi (some t) (some ts) = some (t ∷ ts)
  and_roi none _ = none
  and_roi (some t) none = none

  unfoldable pub roi_list : List (RunCost F) → Economics F → Option (List (TaskRoi F))
  unfolding and_roi
  roi_list [] e = some []
  roi_list (r ∷ rs) e =
      and_roi (task_roi (of_bool r.success) r.llm_cost_usd e r.tool_cost_usd) (roi_list rs e)

  abbrev pub sum : List F → F
  sum xs = foldl (◌⊕◌) (float 0) xs

  -- A quotient by the number of successes, if there are any.
  abbrev pub per_success : F → ℕ → Option F
  per_success x n = if n == 0 then none else some (x ⊘ float n)

  -- The labor rate is positive, by the schema of a workflow.
  abbrev pub in_minutes : Economics F → Option F → Option F
  in_minutes e none = none
  in_minutes e (some cost) = some (cost ⊗ minutes_per_hour ⊘ e.labor_rate_usd_per_hour)

  unfoldable pub summary_of : List (RunCost F) → Economics F → List (TaskRoi F) → RunSummary F
  summary_of runs e ts =
      let n = count_success runs in
      let value = sum (map (λ t. t.value_usd) ts) in
      let cost = sum (map (λ t. t.cost_usd) ts) in
      let machine_cost = sum (map (λ t. t.machine_cost_usd) ts) in
      record {
        n_runs = length runs;
        n_success = n;
        value_usd = value;
        human_cost_usd = sum (map (λ t. t.human_cost_usd) ts);
        machine_cost_usd = machine_cost;
        cost_usd = cost;
        net_roi_usd = value ⊖ cost;
        net_roi_per_task_usd = (value ⊖ cost) ⊘ float (length runs);
        roi_ratio = if flt (float 0) cost then some (value ⊘ cost) else none;
        machine_cost_per_success_usd = per_success machine_cost n;
        cost_per_success_usd = per_success cost n;
        break_even_success_rate = break_even_success_rate (machine_cost ⊘ float (length runs)) e;
        break_even_minutes_per_task = in_minutes e (per_success cost n);
      }

  summary_for : List (RunCost F) → Economics F → Option (List (TaskRoi F)) → Option (RunSummary F)
  summary_for runs e none = none
  summary_for runs e (some ts) = some (summary_of runs e ts)

  -- The inner option is the summary `{"n_runs": 0}` of no runs, the outer one a `ValueError`.
  unfoldable pub summarize_runs : List (RunCost F) → Economics F → Option (Option (RunSummary F))
  unfolding summary_for
  summarize_runs [] e = some none
  summarize_runs (r ∷ rs) e = elim (summary_for (r ∷ rs) e (roi_list (r ∷ rs) e)) [
    | none ↦ none
    | some s ↦ some (some s)
  ]

  abbrev pub scenario_of : Economics F → F → F → Economics F
  scenario_of e multiplier rate = record e {
    minutes_per_task = e.minutes_per_task ⊗ multiplier;
    labor_rate_usd_per_hour = rate;
  }

  abbrev pub grid_entry : Economics F → F → Option (RunSummary F) → Scenario F
  grid_entry e multiplier summary = record {
    minutes_multiplier = multiplier;
    minutes_per_task = e.minutes_per_task;
    labor_rate_usd_per_hour = e.labor_rate_usd_per_hour;
    summary = summary;
  }

  and_scenario :
      Economics F
      → F
      → Option (Option (RunSummary F))
      → Option (List (Scenario F))
      → Option (List (Scenario F))
  and_scenario e multiplier (some s) (some grid) = some (grid_entry e multiplier s ∷ grid)
  and_scenario e multiplier none _ = none
  and_scenario e multiplier (some s) none = none

  -- The loop over the labor rates, and what comes after it.
  unfoldable pub over_rates :
      List (RunCost F)
      → Economics F
      → F
      → List F
      → Option (List (Scenario F))
      → Option (List (Scenario F))
  unfolding and_scenario
  over_rates runs e multiplier [] rest = rest
  over_rates runs e multiplier (rate ∷ rates) rest =
      let scenario = scenario_of e multiplier rate in
      and_scenario scenario multiplier (summarize_runs runs scenario)
        (over_rates runs e multiplier rates rest)

  unfoldable pub sensitivity_grid :
      List (RunCost F) → Economics F → List F → List F → Option (List (Scenario F))
  sensitivity_grid runs e [] rates = some []
  sensitivity_grid runs e (multiplier ∷ multipliers) rates =
      over_rates runs e multiplier rates (sensitivity_grid runs e multipliers rates)
