-- ===== src/Runner/Execution/Outcomes.antt =====
-- runner/runner.py: what the outcome of a run says, of its path and its validators.
use agent_roi_console.Common.{
  ℕ, suc, ◌+◌, ◌≡◌, ◌↔◌, sym, subst, ap, true, ◌&&◌, Bool-cases, inl, inr, List, [], ◌∷◌, length,
  String, none, some, str_eq, arith,
}
use agent_roi_console.Common.Dict.{Dict, lookup, insert}
use agent_roi_console.Json.{Fields}
use agent_roi_console.Float.{Float}
use agent_roi_console.Workflows.{WorkflowDefinition, is_in}
use agent_roi_console.Paths.{PathResult, LlmResult}
use agent_roi_console.Paths.Traces.{IsAccounted}
use agent_roi_console.Paths.Pipeline.Accounts as PipelineAccounts
use agent_roi_console.Paths.Planner.Accounts as PlannerAccounts
use agent_roi_console.Paths.React.Accounts as ReactAccounts
use agent_roi_console.Validators.Engine.{check_task_validators, all_passed}
use agent_roi_console.Validators.Declared.{has_passed, declared-has_passed}
use agent_roi_console.Runner.{
  TaskDefinition, RunRequest, RunOutcome, Tables, TaskRunner, context_of, run_path, is_completed,
  outcome_of, count_models, or_zero,
}
use agent_roi_console.Runner.Execution.{run}
use agent_roi_console.Runner.Execution.Persistence.{Went, run-Went}

-- How many completions are counted, over all models.
unfoldable pub total_used : Dict ℕ → ℕ
total_used [] = 0
total_used ((model, n) ∷ used) = n + total_used used

total_used-insert :
    (model : String) (used : Dict ℕ)
    → total_used (insert model (suc (or_zero (lookup model used))) used) ≡ suc (total_used used)
unfolding total_used insert lookup
total_used-insert model [] = omega arith
total_used-insert model ((m, n) ∷ used) = ground (arith, total_used-insert model used)

module _ {F : Type 0} where
  pub total_used-count_models :
      (rs : List (LlmResult F)) (used : Dict ℕ)
      → total_used (count_models rs used) ≡ length rs + total_used used
  unfolding count_models
  total_used-count_models [] used = omega arith
  total_used-count_models (r ∷ rs) used = omega (
    arith,
    total_used-insert r.model used,
    total_used-count_models rs (insert r.model (suc (or_zero (lookup r.model used))) used),
  )

module _ {F W : Type 0} ⦃fl : Float F⦄ (runner : TaskRunner F W) where
  -- Every path accounts for its completions and keeps to the tools of the workflow.
  pub run_path-IsAccounted :
      (request : RunRequest) (w : WorkflowDefinition F) (inputs : Fields) (instruction : String)
      (world : W) (result : PathResult F)
      → (run_path runner request w inputs instruction world).0 ≡ some result
      → IsAccounted (context_of runner request w) result
  unfolding run_path
  run_path-IsAccounted request w inputs instruction world result e =
      elim (Bool-cases (str_eq request.asked_path "pipeline")) [
        | inl p ↦
            PipelineAccounts.run-IsAccounted runner.services (context_of runner request w)
              runner.jinja inputs w.steps world result (rw p at e)
        | inr p ↦ elim (Bool-cases (str_eq request.asked_path "planner_executor")) [
          | inl q ↦
              PlannerAccounts.run-IsAccounted runner.services (context_of runner request w) w.agent
                runner.prompts instruction world result (rw q at rw p at e)
          | inr q ↦ elim (Bool-cases (str_eq request.asked_path "react")) [
            | inl r ↦
                ReactAccounts.run-IsAccounted runner.services (context_of runner request w) w.agent
                  runner.react_system instruction world result (rw r at rw q at rw p at e)
            | inr r ↦ absurd (ground arith)
          ]
        ]
      ]

  outcome-success :
      (request : RunRequest) (task : TaskDefinition) (w : WorkflowDefinition F) (before : Tables F)
      (o : RunOutcome F) (after : Tables F) (g : Went runner request task w before o after)
      → o.success ≡ (is_completed runner g.result && all_passed g.results)
  unfolding outcome_of
  outcome-success request task w before o after g = ap (λ p. p.success) g.outcome_eq

  -- Where a task was checked against its workflow and a run of it succeeds, every validator that
  -- the workflow declares is among the results of the run and has passed.
  pub success-declared :
      (request : RunRequest) (task : TaskDefinition) (w : WorkflowDefinition F) (world : W)
      (before : Tables F) (o : RunOutcome F) (name : String)
      → lookup task.workflow_id runner.workflows ≡ some w
      → check_task_validators w.validators task.expected ≡ true
      → (run runner request task world before).0 ≡ some o
      → o.success ≡ true
      → is_in name w.validators ≡ true
      → has_passed name o.validator_results ≡ true
  unfolding outcome_of
  success-declared request task w world before o name f checked e s h =
      let after = (run runner request task world before).2 in
      let g = run-Went runner request task w world before o f e in
      let won = outcome-success request task w before o after g in
      subst (λ rs. has_passed name rs ≡ true) (sym (ap (λ p. p.validator_results) g.outcome_eq))
        (declared-has_passed F runner.texts runner.jinja w.validators task.expected g.state g.refs
          g.inputs g.results name checked g.judged (ground arith) h)

  -- A run has a reason for its failure exactly if it does not succeed.
  pub failure_reason_iff :
      (request : RunRequest) (task : TaskDefinition) (w : WorkflowDefinition F) (world : W)
      (before : Tables F) (o : RunOutcome F)
      → lookup task.workflow_id runner.workflows ≡ some w
      → (run runner request task world before).0 ≡ some o
      → (o.failure_reason ≡ none) ↔ (o.success ≡ true)
  unfolding outcome_of
  failure_reason_iff request task w world before o f e =
      let after = (run runner request task world before).2 in
      let g = run-Went runner request task w world before o f e in
      ground (arith, ap (λ p. p.success) g.outcome_eq, ap (λ p. p.failure_reason) g.outcome_eq)
