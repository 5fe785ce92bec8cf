-- ===== src/Tests/Roi.antt =====
-- roi/compute.py at concrete costs, in cents.
use agent_roi_console.Common.{◌≡◌, refl, true, false, List, [], ◌∷◌, Option, none, some}
use agent_roi_console.Float.{◌≼◌}
use agent_roi_console.Float.Scaled.{ℤ, pos, negsuc, scaled, scaled-IsMonotone}
use agent_roi_console.Roi.{
  Economics, TaskRoi, RunCost, RunSummary, task_roi, break_even_success_rate, summarize_runs,
  roi_list, summary_of,
}
use agent_roi_console.Roi.Monotone.{IsEconomics, task_roi_mono}

-- Two cents a minute.
abbrev economics : Economics ℤ
economics = record {
  minutes_per_task = pos 30;
  labor_rate_usd_per_hour = pos 120;
  review_minutes_per_task = pos 3;
  fix_minutes_per_failure = pos 10;
  tool_cost_usd_per_task = pos 1;
}

abbrev economics_IsEconomics : IsEconomics economics
economics_IsEconomics = record { minutes_nonneg = refl; rate_nonneg = refl; fix_nonneg = refl }

abbrev failed_task : TaskRoi ℤ
failed_task = record {
  value_usd = pos 0;
  human_cost_usd = pos 26;
  machine_cost_usd = pos 9;
  cost_usd = pos 35;
  net_usd = negsuc 34;
}

abbrev solved_task : TaskRoi ℤ
solved_task = record {
  value_usd = pos 60;
  human_cost_usd = pos 6;
  machine_cost_usd = pos 5;
  cost_usd = pos 11;
  net_usd = pos 49;
}

failed_run : task_roi (pos 0) (pos 8) economics none ≡ some failed_task
unfolding task_roi
failed_run = refl

solved_run : task_roi (pos 1) (pos 4) economics none ≡ some solved_task
unfolding task_roi
solved_run = refl

impossible_run : task_roi (pos 2) (pos 4) economics none ≡ none
unfolding task_roi
impossible_run = refl

task_roi_mono_example : negsuc 34 ≼ pos 49
task_roi_mono_example =
    task_roi_mono scaled-IsMonotone (pos 0) (pos 1) (pos 8) (pos 4) none economics failed_task
      solved_task economics_IsEconomics refl refl failed_run solved_run

break_even_run : break_even_success_rate (pos 60) economics ≡ some (pos 1)
unfolding break_even_success_rate
break_even_run = refl

abbrev runs : List (RunCost ℤ)
runs =
    record { success = true; llm_cost_usd = pos 4; tool_cost_usd = none }
    ∷ record { success = false; llm_cost_usd = pos 8; tool_cost_usd = some (pos 1) }
    ∷ []

abbrev net_of : Option (Option (RunSummary ℤ)) → Option ℤ
net_of (some (some s)) = some s.net_roi_usd
net_of (some none) = none
net_of none = none

summary_run : net_of (summarize_runs runs economics) ≡ some (pos 14)
unfolding summarize_runs roi_list summary_of task_roi
summary_run = refl
