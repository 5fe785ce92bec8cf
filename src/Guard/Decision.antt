-- ===== src/Guard/Decision.antt =====
-- What guard/state_machine.py decides, on every branch of `evaluate`.
use agent_roi_console.Common.{
  ℕ, ◌≤◌, ◌<◌, ◌≡◌, ◌≢◌, ◌↔◌, refl, sym, subst, ◌∙◌, ◌⊎◌, inl, inr, true, List, some, arith, length,
  String, str_eq, eq_iff, Bool-cases, Option-cases,
}
use agent_roi_console.Common.Dict.{Dict}
use agent_roi_console.Float.{Float, IsMonotone, flt, float, ◌≼◌}
use agent_roi_console.Guard.Choice.{
  Qualifies, cheapest_qualifying_path-some, cheapest_qualifying_path-none,
}
use agent_roi_console.Guard.{
  Phase, Action, normal, downgraded, paused, no_action, downgrade, pause, recover, GuardConfig,
  GuardState, PathStats, GuardDecision, evaluate, total, or_active, cheapest_qualifying_path,
}

module _ {F : Type 0} ⦃fl : Float F⦄ (state : GuardState) (nets : List F) (total_runs : ℕ)
    (stats : Dict (PathStats F)) (config : GuardConfig F) where
  -- With a positive least number of runs, an evaluation always gives a decision.
  pub evaluate_total :
      0 < config.min_runs
      → (d : GuardDecision F) × (evaluate state nets total_runs stats config ≡ some d)
  unfolding evaluate
  evaluate_total p = elim (Option-cases (evaluate state nets total_runs stats config)) [
    | inl e ↦ absurd (ground arith)
    | inr found ↦ found
  ]

module _ {F : Type 0} ⦃fl : Float F⦄ (state : GuardState) (nets : List F) (total_runs : ℕ)
    (stats : Dict (PathStats F)) (config : GuardConfig F) (d : GuardDecision F)
    (decided : evaluate state nets total_runs stats config ≡ some d) where
  -- An evaluation downgrades a workflow exactly if it is in the normal phase, its window is full,
  -- and the window has lost money.
  pub downgrade_iff : (d.action ≡ downgrade) ↔ (
      (state.phase ≡ normal)
      × (config.min_runs ≤ length nets)
      × (flt (total nets) (float 0) ≡ true))
  unfolding evaluate
  downgrade_iff = ground arith

  -- An evaluation pauses a workflow exactly if it is downgraded, its window is full, and the
  -- window has lost money.
  pub pause_iff : (d.action ≡ pause) ↔ (
      (state.phase ≡ downgraded)
      × (config.min_runs ≤ length nets)
      × (flt (total nets) (float 0) ≡ true))
  unfolding evaluate
  pause_iff = ground arith

  -- An evaluation lets a workflow recover exactly if it is downgraded, its window is full, and the
  -- window has lost no money.
  pub recover_iff :
      (d.action ≡ recover)
      ↔ ((state.phase ≡ downgraded) × (config.min_runs ≤ length nets) × (float 0 ≼ total nets))
  unfolding evaluate
  recover_iff = ground arith

  -- The state by the action of the decision.
  evaluate-new_state : d.new_state ≡ elim d.action [
    | no_action ↦ state
    | downgrade ↦ record state {
      active_path =
          or_active (cheapest_qualifying_path stats config.path_success_bar) state.active_path;
      phase = downgraded;
      phase_run_offset = total_runs;
    }
    | pause ↦ record state { phase = paused; phase_run_offset = total_runs }
    | recover ↦ record state { phase = normal; phase_run_offset = total_runs }
  ]
  unfolding evaluate
  evaluate-new_state = ground arith

-- The phase that an action leads to.
abbrev pub phase_after : Action → Phase → Phase
phase_after no_action before = before
phase_after downgrade before = downgraded
phase_after pause before = paused
phase_after recover before = normal

action-cases : (a : Action) → (a ≡ downgrade) ⊎ (a ≢ downgrade)
action-cases no_action = inr (λ e. cc)
action-cases downgrade = inl refl
action-cases pause = inr (λ e. cc)
action-cases recover = inr (λ e. cc)

module _ {F : Type 0} ⦃fl : Float F⦄ (state : GuardState) (total_runs : ℕ) (bar : F)
    (stats : Dict (PathStats F)) where
  -- The path is the cheapest of those that meet the bar.
  abbrev pub IsCheapest : String → Type 0
  IsCheapest path =
      (cost : F) × Qualifies stats bar path cost
      × ((q : String) (c : F) → Qualifies stats bar q c → cost ≼ c)

  -- There is no path to move to: none meets the bar, or the cheapest has no name.
  abbrev pub HasNone : Type 0
  HasNone = ((p : String) (c : F) → ¬ Qualifies stats bar p c) ⊎ IsCheapest ""

  -- The path after an action: only a downgrade moves it, to the cheapest path that meets the bar.
  abbrev pub Moved : Action → String → Type 0
  Moved a path =
      ((a ≡ downgrade) × IsCheapest path) ⊎ ((path ≡ state.active_path) × (a ≡ downgrade → HasNone))

  -- The run count is the new offset exactly where the phase changes.
  abbrev pub Rebased : GuardState → Type 0
  Rebased s =
      ((s.phase ≡ state.phase) × (s.phase_run_offset ≡ state.phase_run_offset))
      ⊎ ((s.phase ≢ state.phase) × (s.phase_run_offset ≡ total_runs))

module _ {F : Type 0} ⦃fl : Float F⦄ (laws : IsMonotone F) (state : GuardState) (nets : List F)
    (total_runs : ℕ) (stats : Dict (PathStats F)) (config : GuardConfig F) (d : GuardDecision F)
    (decided : evaluate state nets total_runs stats config ≡ some d) where
  downgrade-path :
      d.action ≡ downgrade
      → d.new_state.active_path
        ≡ or_active (cheapest_qualifying_path stats config.path_success_bar) state.active_path
  downgrade-path acts =
      ground (arith, evaluate-new_state state nets total_runs stats config d decided)

  downgrade-Moved :
      d.action ≡ downgrade
      → Moved state total_runs config.path_success_bar stats d.action d.new_state.active_path
  downgrade-Moved acts =
      let bar = config.path_success_bar in
      let path = downgrade-path acts in
      elim (Option-cases (cheapest_qualifying_path stats bar)) [
        | inl none_meets ↦ inr (
          path ∙ rw none_meets refl,
          λ a. inl ((cheapest_qualifying_path-none stats bar).0 none_meets),
        )
        | inr (p, found) ↦
            let cheapest = cheapest_qualifying_path-some laws stats bar p found in
            elim (Bool-cases (str_eq p "")) [
              | inl empty ↦ inr (
                path ∙ rw (found, empty) refl,
                λ a. inr (
                    subst (IsCheapest state total_runs bar stats) ((eq_iff p "").0 empty) cheapest),
              )
              | inr named ↦ inl (
                acts,
                subst (IsCheapest state total_runs bar stats) (sym (path ∙ rw (found, named) refl))
                    cheapest,
              )
            ]
      ]

  -- An evaluation keeps the workflow, leads to the phase of its action, takes the run count as the
  -- new offset exactly where the phase changes, and moves the path only by a downgrade, to the
  -- cheapest path that meets the bar; a downgrade that keeps the path has no path that meets it,
  -- or the cheapest such path has an empty name.
  pub evaluate-Moved :
      (d.new_state.workflow_id ≡ state.workflow_id)
      × (d.new_state.phase ≡ phase_after d.action state.phase)
      × Rebased state total_runs config.path_success_bar stats d.new_state
      × Moved state total_runs config.path_success_bar stats d.action d.new_state.active_path
  unfolding evaluate
  evaluate-Moved = (
    ground arith,
    ground arith,
    ground arith,
    elim (action-cases d.action) [
      | inl acts ↦ downgrade-Moved acts
      | inr other ↦ inr (ground arith, λ a. absurd (other a))
    ],
  )
