-- ===== src/Runner/Execution/Rows.antt =====
-- runner/runner.py: the rows of `runs` and `run_steps` that a run leaves.
use agent_roi_console.Common.{
  ◌≡◌, refl, sym, subst, ap, ◌∙◌, true, false, Bool-cases, inl, inr, List, [], ◌∷◌, ◌++◌, map,
  String, some, str_eq, eq_iff, arith, All, if◌then◌else◌,
}
use agent_roi_console.Common.Dict.{lookup}
use agent_roi_console.Float.{Float}
use agent_roi_console.Workflows.{WorkflowDefinition}
use agent_roi_console.Paths.{StepTrace}
use agent_roi_console.Paths.Traces.{IsAllowed, completions}
use agent_roi_console.Runner.{
  TaskDefinition, RunRequest, RunOutcome, RunRow, RunStatus, Tables, TaskRunner, context_of,
  outcome_of, running_row, insert_run, complete_run, has_run, update_runs, completed_row,
}
use agent_roi_console.Runner.Execution.{run}
use agent_roi_console.Runner.Execution.Persistence.{run-Went}
use agent_roi_console.Runner.Execution.Outcomes.{
  total_used, total_used-count_models, run_path-IsAccounted,
}

module _ {F W : Type 0} ⦃fl : Float F⦄ (runner : TaskRunner F W) where
  complete-run_steps :
      (request : RunRequest) (task : TaskDefinition) (before : Tables F) (o : RunOutcome F)
      (traces : List (StepTrace F))
      → runner.o_persist ≡ true
      → (complete_run runner o traces (insert_run runner request task before)).run_steps
        ≡ before.run_steps ++ map (λ t. (o.run_id, t)) traces
  unfolding complete_run insert_run
  complete-run_steps request task before o traces p = rw p refl

  -- A persisted run that gives an outcome adds rows of steps under its id: with as many
  -- completions among them as its outcome counts under all models, and with calls of no tools but
  -- those of its workflow.
  pub run-run_steps :
      (request : RunRequest) (task : TaskDefinition) (w : WorkflowDefinition F) (world : W)
      (before : Tables F) (o : RunOutcome F)
      → runner.o_persist ≡ true
      → lookup task.workflow_id runner.workflows ≡ some w
      → (run runner request task world before).0 ≡ some o
      → (traces : List (StepTrace F)) × ((run runner request task world before).2.run_steps
          ≡ before.run_steps ++ map (λ t. (request.asked_run_id, t)) traces)
        × (completions traces ≡ total_used o.models_used)
        × All (IsAllowed (context_of runner request w)) traces
  unfolding outcome_of total_used
  run-run_steps request task w world before o p f e =
      let g = run-Went runner request task w world before o f e in
      let accounted =
        run_path-IsAccounted runner request w g.inputs g.instruction g.world g.result g.ran in
      (
        g.result.path_traces,
        ap (λ t. t.run_steps) g.after_eq
            ∙ (complete-run_steps request task before o g.result.path_traces p
                ∙ ap (λ q. before.run_steps ++ map (λ t. (q, t)) g.result.path_traces)
                    (ap (λ q. q.run_id) g.outcome_eq)),
        accounted.0
            ∙ omega (arith, total_used-count_models g.result.results [])
            ∙ ap total_used (sym (ap (λ q. q.models_used) g.outcome_eq)),
        accounted.1,
      )

  -- No row of the table is of the run.
  abbrev pub IsNew : String → List (RunRow F) → Type 0
  IsNew id rows = All (λ row. str_eq row.row_run_id id ≡ false) rows

  update_runs-append :
      (o : RunOutcome F) (rows : List (RunRow F)) (row : RunRow F)
      → IsNew o.run_id rows
      → row.row_run_id ≡ o.run_id
      → update_runs runner o (rows ++ row ∷ []) ≡ rows ++ completed_row runner o row ∷ []
  unfolding update_runs
  update_runs-append o [] row new e = ground (arith, eq_iff row.row_run_id o.run_id)
  update_runs-append o (r ∷ rows) row new e =
      rw new.0 (ap (◌∷◌ r) (update_runs-append o rows row new.1 e))

  -- A row that may be inserted is new.
  has_run-IsNew :
      (id : String) (rows : List (RunRow F)) → has_run runner id rows ≡ false → IsNew id rows
  unfolding has_run
  has_run-IsNew id [] h = tt
  has_run-IsNew id (row ∷ rows) h = elim (Bool-cases (str_eq row.row_run_id id)) [
    | inl e ↦ absurd (ground (arith, e))
    | inr e ↦ (e, has_run-IsNew id rows (ground (arith, e)))
  ]

  complete-runs :
      (request : RunRequest) (task : TaskDefinition) (before : Tables F) (o : RunOutcome F)
      (traces : List (StepTrace F))
      → runner.o_persist ≡ true
      → o.run_id ≡ request.asked_run_id
      → IsNew request.asked_run_id before.runs
      → (complete_run runner o traces (insert_run runner request task before)).runs
        ≡ before.runs ++ completed_row runner o (running_row runner request task) ∷ []
  unfolding complete_run insert_run
  complete-runs request task before o traces p e new = rw p (
      update_runs-append o before.runs (running_row runner request task)
        (subst (λ id. IsNew id before.runs) (sym e) new) (sym e))

  -- A persisted run that gives an outcome adds exactly one row, of its task and path, which is
  -- completed if the run succeeds and failed otherwise, with the reason and the results of the
  -- outcome.
  pub run-runs :
      (request : RunRequest) (task : TaskDefinition) (w : WorkflowDefinition F) (world : W)
      (before : Tables F) (o : RunOutcome F)
      → runner.o_persist ≡ true
      → lookup task.workflow_id runner.workflows ≡ some w
      → (run runner request task world before).0 ≡ some o
      → (row : RunRow F) × ((run runner request task world before).2.runs ≡ before.runs ++ row ∷ [])
        × (row.row_run_id ≡ request.asked_run_id)
        × (row.row_task ≡ task.task_id)
        × (row.row_path ≡ request.asked_path)
        × (row.status ≡ (if o.success then RunStatus.completed else RunStatus.failed))
        × (row.row_reason ≡ o.failure_reason)
        × (row.row_results ≡ o.validator_results)
  unfolding outcome_of
  run-runs request task w world before o p f e =
      let g = run-Went runner request task w world before o f e in
      (
        completed_row runner o (running_row runner request task),
        ap (λ t. t.runs) g.after_eq
            ∙ complete-runs request task before o g.result.path_traces p
                (ap (λ q. q.run_id) g.outcome_eq)
                (has_run-IsNew request.asked_run_id before.runs (ground (arith, p, g.fresh))),
        refl,
        refl,
        refl,
        refl,
        refl,
        refl,
      )
