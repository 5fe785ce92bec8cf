-- ===== src/Tests/Guard.antt =====
-- guard/state_machine.py at concrete runs and paths.
use agent_roi_console.Common.{ℕ, ◌≤◌, ◌≡◌, refl, ◌↔◌, true, List, [], ◌∷◌, String, some, length}
use agent_roi_console.Common.Dict.{Dict}
use agent_roi_console.Float.{flt, float, ◌≼◌}
use agent_roi_console.Float.Scaled.{ℤ, pos, negsuc, scaled, scaled-IsMonotone}
use agent_roi_console.Guard.{
  normal, downgraded, paused, downgrade, pause, recover, GuardConfig, GuardState, PathStats, Detail,
  GuardDecision, SeqRun, net_negative, still_negative, total, evaluate, window_for,
  cheapest_qualifying_path, qualifying, least, pick,
}
use agent_roi_console.Guard.Decision.{
  downgrade_iff, pause_iff, recover_iff, Rebased, Moved, evaluate-Moved,
}
use agent_roi_console.Guard.Choice.{Qualifies, cheapest_qualifying_path-some}

abbrev config : GuardConfig ℤ
config = record { min_runs = 2; path_success_bar = pos 80 }

-- Success in per cent, and the mean cost.
abbrev paths : Dict (PathStats ℤ)
paths =
    ("planner", record { success_rate = pos 95; mean_cost_usd = pos 40 })
    ∷ ("react", record { success_rate = pos 85; mean_cost_usd = pos 25 })
    ∷ ("pipeline", record { success_rate = pos 60; mean_cost_usd = pos 5 })
    ∷ []

abbrev normal_state : GuardState
normal_state = record {
  workflow_id = "crm";
  active_path = "planner";
  phase = normal;
  phase_run_offset = 0;
}

abbrev low_state : GuardState
low_state = record normal_state { active_path = "react"; phase = downgraded; phase_run_offset = 2 }

abbrev losses : List ℤ
losses = pos 3 ∷ negsuc 8 ∷ []

abbrev gains : List ℤ
gains = pos 7 ∷ negsuc 2 ∷ []

abbrev downgrade_decision : GuardDecision ℤ
downgrade_decision = record {
  action = downgrade;
  new_state = record normal_state {
    active_path = "react";
    phase = downgraded;
    phase_run_offset = 9;
  };
  window_runs = 2;
  net_roi_usd = some (negsuc 5);
  detail = net_negative (negsuc 5) 2 "planner" "react";
}

abbrev pause_decision : GuardDecision ℤ
pause_decision = record {
  action = pause;
  new_state = record low_state { phase = paused; phase_run_offset = 9 };
  window_runs = 2;
  net_roi_usd = some (negsuc 5);
  detail = still_negative (negsuc 5) 2;
}

abbrev recover_decision : GuardDecision ℤ
recover_decision = record {
  action = recover;
  new_state = record low_state { phase = normal; phase_run_offset = 9 };
  window_runs = 2;
  net_roi_usd = some (pos 4);
  detail = Detail.recovered;
}

downgrade_run : evaluate normal_state losses 9 paths config ≡ some downgrade_decision
unfolding evaluate cheapest_qualifying_path qualifying least pick
downgrade_run = refl

pause_run : evaluate low_state losses 9 paths config ≡ some pause_decision
unfolding evaluate
pause_run = refl

recover_run : evaluate low_state gains 9 paths config ≡ some recover_decision
unfolding evaluate
recover_run = refl

downgrade_iff_example :
    (downgrade ≡ downgrade) ↔ ((normal ≡ normal) × (2 ≤ 2) × (flt (total losses) (float 0) ≡ true))
downgrade_iff_example =
    downgrade_iff normal_state losses 9 paths config downgrade_decision downgrade_run

pause_iff_example :
    (pause ≡ pause) ↔ ((downgraded ≡ downgraded) × (2 ≤ 2) × (flt (total losses) (float 0) ≡ true))
pause_iff_example = pause_iff low_state losses 9 paths config pause_decision pause_run

recover_iff_example :
    (recover ≡ recover) ↔ ((downgraded ≡ downgraded) × (2 ≤ 2) × (float 0 ≼ total gains))
recover_iff_example = recover_iff low_state gains 9 paths config recover_decision recover_run

evaluate-Moved_example :
    (downgrade_decision.new_state.workflow_id ≡ normal_state.workflow_id)
    × (downgrade_decision.new_state.phase ≡ downgraded)
    × Rebased normal_state 9 (pos 80) paths downgrade_decision.new_state
    × Moved normal_state 9 (pos 80) paths downgrade "react"
evaluate-Moved_example =
    evaluate-Moved scaled-IsMonotone normal_state losses 9 paths config downgrade_decision
      downgrade_run

cheapest_run : cheapest_qualifying_path paths (pos 80) ≡ some "react"
unfolding cheapest_qualifying_path qualifying least pick
cheapest_run = refl

cheapest_qualifying_path-some_example :
    (cost : ℤ) × Qualifies paths (pos 80) "react" cost
    × ((q : String) (c : ℤ) → Qualifies paths (pos 80) q c → cost ≼ c)
cheapest_qualifying_path-some_example =
    cheapest_qualifying_path-some scaled-IsMonotone paths (pos 80) "react" cheapest_run

abbrev seq_run : ℕ → SeqRun ℕ
seq_run n = record { seq = n; run = n }

abbrev seq_runs : List (SeqRun ℕ)
seq_runs = seq_run 1 ∷ seq_run 2 ∷ seq_run 3 ∷ seq_run 4 ∷ []

window_run : window_for low_state seq_runs 2 ≡ seq_run 2 ∷ seq_run 3 ∷ []
unfolding window_for
window_run = refl

full_window : length (window_for low_state seq_runs 2) ≡ 2
unfolding window_for
full_window = refl
