-- ===== src/Guard/Service/Writes.antt =====
-- What an evaluation of guard/service.py writes.
use text.Mathlib.TextPositions.{eq_refl}
use agent_roi_console.Common.{
  ℕ, ◌≡◌, ◌↔◌, refl, ap, ◌∙◌, Bool, true, false, List, [], ◌∷◌, ◌++◌, String, Option, some, arith,
  str_eq, Option-cases, inl, inr, if◌then◌else◌,
}
use agent_roi_console.Common.Dict.{
  Dict, lookup, insert, contains, lookup-insert, contains-lookup, contains-insert,
}
use agent_roi_console.Float.{Float}
use agent_roi_console.Guard.{
  Action, no_action, paused, GuardConfig, GuardState, PathStats, GuardDecision, SeqRun, evaluate,
  window_for,
}
use agent_roi_console.Guard.Service.{
  StateRow, ActionRow, RunRow, GuardTables, Workflow, row_of, default_row, load_state, save_state,
  record_action, nets, applied, notified, decided, trailing_runs, path_stats_for, evaluate_workflow,
}

abbrev pub is_action : Action → Bool
is_action no_action = false
is_action _ = true

-- The row of a decision that acts.
abbrev pub action_row : {F : Type 0} → GuardDecision F → GuardState → ActionRow F
action_row d previous = record {
  workflow_id = previous.workflow_id;
  action = d.action;
  from_path = previous.active_path;
  to_path = d.new_state.active_path;
  window_runs = d.window_runs;
  net_roi_usd = d.net_roi_usd;
  detail = d.detail;
}

lookup-if_insert :
    (b : Bool) (k j : String) (r : StateRow) (d : Dict StateRow)
    → lookup j (if b then insert k r d else d)
      ≡ (if b then (if str_eq k j then some r else lookup j d) else lookup j d)
lookup-if_insert true k j r d = lookup-insert k j r d
lookup-if_insert false k j r d = refl

module _ {F : Type 0} ⦃fl : Float F⦄ where
  -- Other workflows keep their rows.
  load_state-lookup :
      (workflow_id j path : String) (t : GuardTables F)
      → str_eq workflow_id j ≡ false
      → lookup j (load_state workflow_id path t).1.states ≡ lookup j t.states
  unfolding load_state
  load_state-lookup workflow_id j path t ne = elim (Option-cases (lookup workflow_id t.states)) [
    | inl e ↦
        rw (load_state, e) (lookup-insert workflow_id j (default_row path) t.states ∙ rw ne refl)
    | inr (r, e) ↦ rw (load_state, e) refl
  ]

  load_state-workflow :
      (workflow_id path : String) (t : GuardTables F)
      → (load_state workflow_id path t).0.workflow_id ≡ workflow_id
  unfolding load_state
  load_state-workflow workflow_id path t = ground arith

  applied-states :
      (o_notifier : Bool) (state : GuardState) (d : GuardDecision F) (a : Action)
      (t : GuardTables F)
      → contains d.new_state.workflow_id t.states ≡ true
      → (applied o_notifier state d a t).states ≡ (
          if is_action a
          then insert d.new_state.workflow_id (row_of d.new_state) t.states
          else t.states)
  unfolding applied notified save_state record_action
  applied-states o_notifier state d a t known = ground arith

  -- The row of the workflow is there once its state is loaded.
  load_state-contains :
      (workflow_id path : String) (t : GuardTables F)
      → contains workflow_id (load_state workflow_id path t).1.states ≡ true
  unfolding load_state
  load_state-contains workflow_id path t = elim (Option-cases (lookup workflow_id t.states)) [
    | inl e ↦
        rw
          (
            load_state,
            e,
            contains-insert workflow_id workflow_id (default_row path) t.states,
            eq_refl workflow_id,
          )
          refl
    | inr (r, e) ↦ rw (load_state, e, contains-lookup workflow_id t.states) (rw e refl)
  ]

  applied-actions :
      (o_notifier : Bool) (state : GuardState) (d : GuardDecision F) (a : Action)
      (t : GuardTables F)
      → (applied o_notifier state d a t).actions
        ≡ (if is_action a then t.actions ++ action_row d state ∷ [] else t.actions)
  unfolding applied notified save_state record_action
  applied-actions o_notifier state d a t = ground arith

  decided-cases :
      (config : GuardConfig F) (o_notifier : Bool) (workflow : Workflow F)
      (stats : Dict (PathStats F)) (state : GuardState) (run_list : List (SeqRun (RunRow F)))
      (total_runs : ℕ) (t : GuardTables F) (d : GuardDecision F)
      → (decided config o_notifier workflow stats state run_list total_runs t).0 ≡ some d
      → (ns : List F) × (evaluate state ns total_runs stats config ≡ some d)
        × ((decided config o_notifier workflow stats state run_list total_runs t).1
            ≡ applied o_notifier state d d.action t)
  unfolding decided
  decided-cases config o_notifier workflow stats state run_list total_runs t d h =
      elim (Option-cases (nets workflow.economics (window_for state run_list config.min_runs))) [
        | inl e ↦ absurd (ground arith)
        | inr (ns, e) ↦ elim (Option-cases (evaluate state ns total_runs stats config)) [
          | inl k ↦ absurd (ground arith)
          | inr (d', k) ↦ (ns, ground arith, ground arith)
        ]
      ]

  new_state-workflow :
      (state : GuardState) (ns : List F) (total_runs : ℕ) (stats : Dict (PathStats F))
      (config : GuardConfig F) (d : GuardDecision F)
      → evaluate state ns total_runs stats config ≡ some d
      → d.new_state.workflow_id ≡ state.workflow_id
  unfolding evaluate
  new_state-workflow state ns total_runs stats config d h = ground arith

  load_state-actions :
      (workflow_id path : String) (t : GuardTables F)
      → (load_state workflow_id path t).1.actions ≡ t.actions
  unfolding load_state
  load_state-actions workflow_id path t = ground arith

module _ {F : Type 0} ⦃fl : Float F⦄ (config : GuardConfig F) (min_runs_per_path : ℕ)
    (o_notifier : Bool) (workflow : Workflow F) (e2 : Option (Dict (Option (Option F × Option F))))
    (since : String) (rows : List (RunRow F)) (workflow_id : String) (t : GuardTables F)
    (d : GuardDecision F)
    (decision : (evaluate_workflow config min_runs_per_path o_notifier workflow e2 since rows
        workflow_id t).0
      ≡ some d) where
  abbrev loaded : GuardState × GuardTables F
  loaded = load_state workflow_id workflow.default_path t

  abbrev trailing : List (SeqRun (RunRow F)) × ℕ
  trailing = trailing_runs workflow_id since rows

  written :
      (ns : List F) × (evaluate loaded.0 ns trailing.1
          (path_stats_for e2 trailing.0 min_runs_per_path)
          config
        ≡ some d)
      × ((evaluate_workflow config min_runs_per_path o_notifier workflow e2 since rows workflow_id
            t).1
          ≡ applied o_notifier loaded.0 d d.action loaded.1)
  unfolding evaluate_workflow
  written =
      decided-cases config o_notifier workflow (path_stats_for e2 trailing.0 min_runs_per_path)
        loaded.0 trailing.0 trailing.1 loaded.1 d decision

  moved : d.new_state.workflow_id ≡ workflow_id
  moved =
      new_state-workflow loaded.0 written.0 trailing.1 _ config d written.1
      ∙ load_state-workflow workflow_id workflow.default_path t

  known : contains d.new_state.workflow_id loaded.1.states ≡ true
  known = rw moved (load_state-contains workflow_id workflow.default_path t)

  states_after :
      (j : String)
      → lookup j
          (evaluate_workflow config min_runs_per_path o_notifier workflow e2 since rows workflow_id
            t).1.states
        ≡ (if is_action d.action
            then (if str_eq workflow_id j
                then some (row_of d.new_state)
                else lookup j loaded.1.states)
            else lookup j loaded.1.states)
  states_after j =
      ap (λ (x : GuardTables F). lookup j x.states) written.2
      ∙ ap (lookup j) (applied-states o_notifier loaded.0 d d.action loaded.1 known)
      ∙ lookup-if_insert (is_action d.action) d.new_state.workflow_id j (row_of d.new_state)
          loaded.1.states
      ∙ ap
          (λ k.
            if is_action d.action
            then (if str_eq k j then some (row_of d.new_state) else lookup j loaded.1.states)
            else lookup j loaded.1.states)
          moved

  -- An evaluation that gives a decision leaves the rows of all other workflows as they were.
  pub evaluate_workflow-others :
      (j : String)
      → str_eq workflow_id j ≡ false
      → lookup j
          (evaluate_workflow config min_runs_per_path o_notifier workflow e2 since rows workflow_id
            t).1.states
        ≡ lookup j t.states
  evaluate_workflow-others j ne =
      states_after j ∙ ground (arith, load_state-lookup workflow_id j workflow.default_path t ne)

  -- An evaluation that decides to act adds exactly one row of actions, from the path before to the
  -- path after, and one that decides not to act adds none.
  pub evaluate_workflow-actions :
      (evaluate_workflow config min_runs_per_path o_notifier workflow e2 since rows workflow_id
        t).1.actions
      ≡ (if is_action d.action
          then t.actions ++ action_row d (load_state workflow_id workflow.default_path t).0 ∷ []
          else t.actions)
  evaluate_workflow-actions =
      ap (λ (x : GuardTables F). x.actions) written.2
      ∙ applied-actions o_notifier loaded.0 d d.action loaded.1
      ∙ ap (λ xs. if is_action d.action then xs ++ action_row d loaded.0 ∷ [] else xs)
          (load_state-actions workflow_id workflow.default_path t)

  -- An evaluation that decides to act leaves the row of its workflow with the path, phase and
  -- offset of the decision, and paused exactly if that phase is paused.
  pub evaluate_workflow-state :
      is_action d.action ≡ true
      → (row : StateRow) × (lookup workflow_id
            (evaluate_workflow config min_runs_per_path o_notifier workflow e2 since rows
              workflow_id t).1.states
          ≡ some row)
        × (row.active_path ≡ d.new_state.active_path)
        × (row.guard_phase ≡ d.new_state.phase)
        × (row.phase_run_offset ≡ d.new_state.phase_run_offset)
        × ((row.o_paused ≡ true) ↔ (d.new_state.phase ≡ paused))
  evaluate_workflow-state acts = (
    row_of d.new_state,
    states_after workflow_id ∙ rw (acts, eq_refl workflow_id) refl,
    refl,
    refl,
    refl,
    ground arith,
  )
