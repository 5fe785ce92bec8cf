-- ===== src/Tests/Evaluation.antt =====
-- guard/service.py at two losing runs of one workflow, in cents.
use agent_roi_console.Common.{ℕ, ◌≡◌, ◌↔◌, refl, true, false, List, [], ◌∷◌, String, none, some}
use agent_roi_console.Common.Dict.{lookup, insert}
use agent_roi_console.Common.Sort.{sorted, insert_sorted}
use agent_roi_console.Float.Scaled.{ℤ, pos, negsuc, scaled}
use agent_roi_console.Gateway.Router.{distinct}
use agent_roi_console.Roi.{task_roi}
use agent_roi_console.Guard.{
  normal, downgraded, paused, downgrade, GuardConfig, GuardDecision, net_negative, evaluate,
  window_for, cheapest_qualifying_path, qualifying, least, pick,
}
use agent_roi_console.Guard.Service.{
  StateRow, RunRow, GuardTables, Workflow, load_state, nets, applied, decided, enumerate,
  trailing_runs, observed_stats, path_stats_for, evaluate_workflow,
}
use agent_roi_console.Guard.Service.Writes.{
  action_row, evaluate_workflow-others, evaluate_workflow-actions, evaluate_workflow-state,
}

abbrev config : GuardConfig ℤ
config = record { min_runs = 2; path_success_bar = pos 0 }

abbrev workflow : Workflow ℤ
workflow = record {
  default_path = "planner";
  economics = record {
    minutes_per_task = pos 30;
    labor_rate_usd_per_hour = pos 120;
    review_minutes_per_task = pos 3;
    fix_minutes_per_failure = pos 10;
    tool_cost_usd_per_task = pos 0;
  };
}

abbrev run : String → String → ℕ → RunRow ℤ
run path started_at cost = record {
  workflow_id = "crm";
  o_finished = true;
  o_evaluation = false;
  path = path;
  success = false;
  llm_cost_usd = pos cost;
  tool_cost_usd = pos 0;
  started_at = started_at;
}

abbrev rows : List (RunRow ℤ)
rows =
    run "planner" "2026-01-02" 9
    ∷ run "pipeline" "2026-01-01" 4
    ∷ record (run "react" "2026-01-03" 1) { o_evaluation = true }
    ∷ []

abbrev state_row : StateRow
state_row = record {
  active_path = "planner";
  o_paused = false;
  guard_phase = normal;
  phase_run_offset = 0;
}

abbrev tables : GuardTables ℤ
tables = record { states = ("slack", state_row) ∷ []; actions = []; alerts = [] }

abbrev decision : GuardDecision ℤ
decision = record {
  action = downgrade;
  new_state = record {
    workflow_id = "crm";
    active_path = "pipeline";
    phase = downgraded;
    phase_run_offset = 2;
  };
  window_runs = 2;
  net_roi_usd = some (negsuc 64);
  detail = net_negative (negsuc 64) 2 "planner" "pipeline";
}

decision_run :
    (evaluate_workflow config 1 true workflow none "2025-12-31" rows "crm" tables).0 ≡ some decision
unfolding evaluate_workflow load_state lookup insert trailing_runs enumerate sorted insert_sorted
    path_stats_for observed_stats distinct decided nets task_roi window_for evaluate
    cheapest_qualifying_path qualifying least pick applied
decision_run = refl

evaluate_workflow-others_example :
    lookup "slack"
      (evaluate_workflow config 1 true workflow none "2025-12-31" rows "crm" tables).1.states
    ≡ lookup "slack" tables.states
evaluate_workflow-others_example =
    evaluate_workflow-others config 1 true workflow none "2025-12-31" rows "crm" tables decision
      decision_run "slack" refl

evaluate_workflow-actions_example :
    (evaluate_workflow config 1 true workflow none "2025-12-31" rows "crm" tables).1.actions
    ≡ action_row decision (load_state "crm" "planner" tables).0 ∷ []
evaluate_workflow-actions_example =
    evaluate_workflow-actions config 1 true workflow none "2025-12-31" rows "crm" tables decision
      decision_run

evaluate_workflow-state_example :
    (row : StateRow) × (lookup "crm"
        (evaluate_workflow config 1 true workflow none "2025-12-31" rows "crm" tables).1.states
      ≡ some row)
    × (row.active_path ≡ decision.new_state.active_path)
    × (row.guard_phase ≡ decision.new_state.phase)
    × (row.phase_run_offset ≡ decision.new_state.phase_run_offset)
    × ((row.o_paused ≡ true) ↔ (decision.new_state.phase ≡ paused))
evaluate_workflow-state_example =
    evaluate_workflow-state config 1 true workflow none "2025-12-31" rows "crm" tables decision
      decision_run refl
