-- ===== src/Guard/Service.antt =====
-- guard/service.py: one evaluation of a workflow against its rows. The tables workflow_state,
-- guard_actions and runs are values; `load_workflows` and the results of experiment E2 are
-- arguments. Times of writing, metrics and log lines are left out.
pub mod Writes
use agent_roi_console.Common.{
  ℕ, suc, Bool, true, false, not, ◌&&◌, List, [], ◌∷◌, ◌++◌, map, String, Option, none, some,
  length, keep_if, leb, str_eq, text_le, if◌then◌else◌,
}
use agent_roi_console.Common.Dict.{Dict, lookup, insert, contains}
use agent_roi_console.Common.Sort.{sorted}
use agent_roi_console.Float.{Float, fle, float, ◌⊕◌, ◌⊘◌}
use agent_roi_console.Gateway.Router.{distinct}
use agent_roi_console.Roi.{Economics, TaskRoi, task_roi, of_bool, sum}
use agent_roi_console.Guard.{
  Phase, normal, paused, Action, no_action, GuardConfig, GuardState, PathStats, Detail,
  GuardDecision, SeqRun, is_paused, evaluate, window_for,
}

-- A row of workflow_state.
pub record StateRow : Type 0 where
  pub active_path : String
  pub o_paused : Bool
  pub guard_phase : Phase
  pub phase_run_offset : ℕ

-- A row of guard_actions.
pub record ActionRow (F : Type 0) : Type 0 where
  pub workflow_id : String
  pub action : Action
  pub from_path : String
  pub to_path : String
  pub window_runs : ℕ
  pub net_roi_usd : Option F
  pub detail : Detail F

-- A row of runs: whether its status is COMPLETED or FAILED, and whether its trigger is LIKE 'eval%'.
pub record RunRow (F : Type 0) : Type 0 where
  pub workflow_id : String
  pub o_finished : Bool
  pub o_evaluation : Bool
  pub path : String
  pub success : Bool
  pub llm_cost_usd : F
  pub tool_cost_usd : F
  pub started_at : String

pub record GuardTables (F : Type 0) : Type 0 where
  pub states : Dict StateRow
  -- oldest first
  pub actions : List (ActionRow F)
  -- the alerts that the notifier was asked to post
  pub alerts : List String

pub record Workflow (F : Type 0) : Type 0 where
  pub default_path : String
  pub economics : Economics F

abbrev pub state_of : String → StateRow → GuardState
state_of workflow_id r = record {
  workflow_id = workflow_id;
  active_path = r.active_path;
  phase = r.guard_phase;
  phase_run_offset = r.phase_run_offset;
}

abbrev pub row_of : GuardState → StateRow
row_of s = record {
  active_path = s.active_path;
  o_paused = is_paused s.phase;
  guard_phase = s.phase;
  phase_run_offset = s.phase_run_offset;
}

abbrev pub default_row : String → StateRow
default_row path = record {
  active_path = path;
  o_paused = false;
  guard_phase = normal;
  phase_run_offset = 0;
}

module _ {F : Type 0} where
  unfoldable pub load_state : String → String → GuardTables F → GuardState × GuardTables F
  load_state workflow_id default_path t = elim (lookup workflow_id t.states) [
    | none ↦ (
      state_of workflow_id (default_row default_path),
      record t { states = insert workflow_id (default_row default_path) t.states },
    )
    | some r ↦ (state_of workflow_id r, t)
  ]

  -- `UPDATE … WHERE workflow_id = ?`, which leaves a table without that row alone
  unfoldable pub save_state : GuardState → GuardTables F → GuardTables F
  unfolding contains
  save_state s t =
      if contains s.workflow_id t.states
      then record t { states = insert s.workflow_id (row_of s) t.states }
      else t

  unfoldable pub record_action : GuardDecision F → GuardState → GuardTables F → GuardTables F
  record_action d previous t = record t {
    actions =
        t.actions
        ++ record {
          workflow_id = previous.workflow_id;
          action = d.action;
          from_path = previous.active_path;
          to_path = d.new_state.active_path;
          window_runs = d.window_runs;
          net_roi_usd = d.net_roi_usd;
          detail = d.detail;
        }
          ∷ [];
  }

  abbrev pub starts_by : RunRow F → RunRow F → Bool
  starts_by a b = text_le a.started_at b.started_at

  abbrev pub counts : String → RunRow F → Bool
  counts workflow_id r = str_eq r.workflow_id workflow_id && r.o_finished && not r.o_evaluation

  unfoldable pub enumerate : ℕ → List (RunRow F) → List (SeqRun (RunRow F))
  enumerate n [] = []
  enumerate n (r ∷ rs) = record { seq = n; run = r } ∷ enumerate (suc n) rs

  -- The runs since a time, and the count of all.
  unfoldable pub trailing_runs : String → String → List (RunRow F) → List (SeqRun (RunRow F)) × ℕ
  unfolding enumerate
  trailing_runs workflow_id since rows =
      let run_list = enumerate 0 (sorted starts_by (keep_if (counts workflow_id) rows)) in
      (keep_if (λ r. text_le since r.run.started_at) run_list, length run_list)

module _ {F : Type 0} ⦃fl : Float F⦄ where
  unfoldable pub nets : Economics F → List (SeqRun (RunRow F)) → Option (List F)
  nets e [] = some []
  nets e (r ∷ rs) =
      and_net (task_roi (of_bool r.run.success) r.run.llm_cost_usd e (some r.run.tool_cost_usd))
        (nets e rs)
    where
      and_net : Option (TaskRoi F) → Option (List F) → Option (List F)
      and_net (some t) (some ns) = some (t.net_usd ∷ ns)
      and_net none _ = none
      and_net (some t) none = none

  -- The alert of a pause.
  notified : Bool → String → Action → GuardTables F → GuardTables F
  notified true workflow_id Action.pause t = record t { alerts = t.alerts ++ workflow_id ∷ [] }
  notified _ workflow_id _ t = t

  -- `if decision.action != ACTION_NONE: …`
  unfoldable pub applied :
      Bool → GuardState → GuardDecision F → Action → GuardTables F → GuardTables F
  unfolding notified save_state record_action
  applied o_notifier state d no_action t = t
  applied o_notifier state d action t =
      notified o_notifier state.workflow_id action
        (record_action d state (save_state d.new_state t))

  -- A path's entry in the results of E2: `configs["auto"]`, if it is there, with `x or 0.0`.
  abbrev pub or_zero : Option F → F
  or_zero none = float 0
  or_zero (some x) = x

  unfoldable pub measured_stats : Dict (Option (Option F × Option F)) → Dict (PathStats F)
  measured_stats [] = []
  measured_stats ((path, none) ∷ rest) = measured_stats rest
  measured_stats ((path, some (rate, cost)) ∷ rest) =
      (path, record { success_rate = or_zero rate; mean_cost_usd = or_zero cost })
      ∷ measured_stats rest

  abbrev pub on_path : String → SeqRun (RunRow F) → Bool
  on_path path r = str_eq r.run.path path

  abbrev pub has_success : SeqRun (RunRow F) → Bool
  has_success r = r.run.success

  stats_of : List (SeqRun (RunRow F)) → PathStats F
  stats_of subset = record {
    success_rate = float (length (keep_if has_success subset)) ⊘ float (length subset);
    mean_cost_usd =
        sum (map (λ r. r.run.llm_cost_usd ⊕ r.run.tool_cost_usd) subset) ⊘ float (length subset);
  }

  -- The loop over the set of paths, in the order of their first runs.
  unfoldable pub observed_stats : List String → List (SeqRun (RunRow F)) → ℕ → Dict (PathStats F)
  unfolding stats_of
  observed_stats [] run_list min_runs_per_path = []
  observed_stats (path ∷ paths) run_list min_runs_per_path =
      let rest = observed_stats paths run_list min_runs_per_path in
      let subset = keep_if (on_path path) run_list in
      if leb min_runs_per_path (length subset) then (path, stats_of subset) ∷ rest else rest

  -- `if stats_dict: return stats_dict`
  or_observed : Dict (PathStats F) → Dict (PathStats F) → Dict (PathStats F)
  or_observed [] observed = observed
  or_observed (p ∷ ps) observed = p ∷ ps

  -- `none` where E2 has no results; its entries are those of the workflow.
  unfoldable pub path_stats_for :
      Option (Dict (Option (Option F × Option F)))
      → List (SeqRun (RunRow F))
      → ℕ
      → Dict (PathStats F)
  unfolding measured_stats observed_stats or_observed
  path_stats_for e2 run_list min_runs_per_path =
      let observed =
        observed_stats (distinct (map (λ r. r.run.path) run_list)) run_list min_runs_per_path in
      elim e2 [ none ↦ observed | some entries ↦ or_observed (measured_stats entries) observed ]

  -- The steps behind the state; `none` is an exception of `task_roi` or of the decision.
  unfoldable pub decided :
      GuardConfig F
      → Bool
      → Workflow F
      → Dict (PathStats F)
      → GuardState
      → List (SeqRun (RunRow F))
      → ℕ
      → GuardTables F
      → Option (GuardDecision F) × GuardTables F
  decided config o_notifier workflow stats state run_list total_runs t =
      elim (nets workflow.economics (window_for state run_list config.min_runs)) [
        | none ↦ (none, t)
        | some ns ↦ elim (evaluate state ns total_runs stats config) [
          | none ↦ (none, t)
          | some d ↦ (some d, applied o_notifier state d d.action t)
        ]
      ]

  unfoldable pub evaluate_workflow :
      GuardConfig F
      → ℕ
      → Bool
      → Workflow F
      → Option (Dict (Option (Option F × Option F)))
      → String
      → List (RunRow F)
      → String
      → GuardTables F
      → Option (GuardDecision F) × GuardTables F
  unfolding decided
  evaluate_workflow config min_runs_per_path o_notifier workflow e2 since rows workflow_id t =
      let (state, t') = load_state workflow_id workflow.default_path t in
      let (run_list, total_runs) = trailing_runs workflow_id since rows in
      decided config o_notifier workflow (path_stats_for e2 run_list min_runs_per_path) state
        run_list total_runs t'
