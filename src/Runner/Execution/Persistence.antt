-- ===== src/Runner/Execution/Persistence.antt =====
-- runner/runner.py: what a run that returned an outcome went through, and the rows that it leaves.
use agent_roi_console.Common.{
  ◌≡◌, refl, sym, subst, ap, Bool, true, false, List, String, Option, none, some, arith,
}
use agent_roi_console.Common.Dict.{lookup}
use agent_roi_console.Json.{Value, Fields}
use agent_roi_console.Float.{Float}
use agent_roi_console.Workflows.{WorkflowDefinition}
use agent_roi_console.Workflows.Rendering.{Rendered, rendered, render_error, escapes, render_fields}
use agent_roi_console.Workflows.Transforms.{str_of}
use agent_roi_console.Paths.{PathResult}
use agent_roi_console.Validators.{ValidatorResult, EndState}
use agent_roi_console.Validators.Engine.{run_validators}
use agent_roi_console.Runner.{
  TaskDefinition, RunRequest, RunOutcome, Tables, TaskRunner, run_path, outcome_of, insert_run,
  complete_run, is_duplicate,
}
use agent_roi_console.Runner.Execution.{
  validated, checked, inserted, instructed, started, refs_context, instruction_of, of_workflow, run,
}

module _ {A : Type 0} where
  some_injective : (a b : A) → some a ≡ some b → a ≡ b
  some_injective a b e = ground arith

module _ {F W : Type 0} ⦃fl : Float F⦄ (runner : TaskRunner F W) where
  -- The parts of a run that returned the outcome `o` and left the tables `after`.
  pub record Went (request : RunRequest) (task : TaskDefinition) (w : WorkflowDefinition F)
      (before : Tables F) (o : RunOutcome F) (after : Tables F) : Type 0 where
    pub refs : Fields
    pub inputs : Fields
    pub instruction : String
    pub world : W
    pub state : EndState
    pub result : PathResult F
    pub results : List ValidatorResult
    pub fresh : is_duplicate runner request before ≡ false
    pub ran : (run_path runner request w inputs instruction world).0 ≡ some result
    pub judged :
        run_validators F runner.texts runner.jinja task.expected state refs inputs
        ≡ rendered results
    pub outcome_eq : o ≡ outcome_of runner request task w result results
    pub after_eq :
        after ≡ complete_run runner o result.path_traces (insert_run runner request task before)

  validated-inv :
      (request : RunRequest) (task : TaskDefinition) (w : WorkflowDefinition F)
      (result : PathResult F) (r : Rendered (List ValidatorResult)) (world : W) (tables : Tables F)
      (o : RunOutcome F)
      → (validated runner request task w result r world tables).0 ≡ some o
      → (results : List ValidatorResult) × (r ≡ rendered results)
        × (o ≡ outcome_of runner request task w result results)
        × ((validated runner request task w result r world tables).2
            ≡ complete_run runner o result.path_traces tables)
  unfolding validated
  validated-inv request task w result (rendered results) world tables o e =
      let same : outcome_of runner request task w result results ≡ o = ground arith in
      (results, refl, sym same, ap (λ p. complete_run runner p result.path_traces tables) same)
  validated-inv request task w result (render_error x) world tables o e = absurd (ground arith)
  validated-inv request task w result escapes world tables o e = absurd (ground arith)

  checked-Went :
      (request : RunRequest) (task : TaskDefinition) (w : WorkflowDefinition F)
      (refs inputs : Fields) (instruction : String) (world : W) (before : Tables F)
      (p : Option (PathResult F) × W) (o : RunOutcome F)
      → is_duplicate runner request before ≡ false
      → run_path runner request w inputs instruction world ≡ p
      → (checked runner request task w refs inputs p (insert_run runner request task before)).0
        ≡ some o
      → Went request task w before o
          (checked runner request task w refs inputs p (insert_run runner request task before)).2
  unfolding checked
  checked-Went request task w refs inputs instruction world before (none, world') o fresh ran e =
      absurd (ground arith)
  checked-Went request task w refs inputs instruction world before (some result, world') o fresh ran
        e =
      let state = (runner.backends.snapshot world').0 in
      let (results, judged, same, left) =
        validated-inv request task w result
          (run_validators F runner.texts runner.jinja task.expected state refs inputs) _
          (insert_run runner request task before) o e in
      record {
        refs = refs;
        inputs = inputs;
        instruction = instruction;
        world = world;
        state = state;
        result = result;
        results = results;
        fresh = fresh;
        ran = ap (λ q. q.0) ran;
        judged = judged;
        outcome_eq = same;
        after_eq = left;
      }

  inserted-Went :
      (request : RunRequest) (task : TaskDefinition) (w : WorkflowDefinition F)
      (refs inputs : Fields) (instruction : String) (duplicate : Bool) (world : W)
      (before : Tables F) (o : RunOutcome F)
      → is_duplicate runner request before ≡ duplicate
      → (inserted runner request task w refs inputs instruction duplicate world before).0 ≡ some o
      → Went request task w before o
          (inserted runner request task w refs inputs instruction duplicate world before).2
  unfolding inserted
  inserted-Went request task w refs inputs instruction true world before o d e =
      absurd (ground arith)
  inserted-Went request task w refs inputs instruction false world before o d e =
      checked-Went request task w refs inputs instruction world before
        (run_path runner request w inputs instruction world) o d refl e

  instructed-Went :
      (request : RunRequest) (task : TaskDefinition) (w : WorkflowDefinition F)
      (refs inputs : Fields) (i : Rendered Value) (world : W) (before : Tables F) (o : RunOutcome F)
      → (instructed runner request task w refs inputs i world before).0 ≡ some o
      → Went request task w before o (instructed runner request task w refs inputs i world before).2
  unfolding instructed
  instructed-Went request task w refs inputs (rendered v) world before o e =
      inserted-Went request task w refs inputs (str_of runner.texts.to_str v)
        (is_duplicate runner request before) world before o refl e
  instructed-Went request task w refs inputs (render_error x) world before o e =
      absurd (ground arith)
  instructed-Went request task w refs inputs escapes world before o e = absurd (ground arith)

  started-Went :
      (request : RunRequest) (task : TaskDefinition) (w : WorkflowDefinition F) (refs : Fields)
      (r : Rendered Fields) (instruct : Fields → Rendered Value) (world : W) (before : Tables F)
      (o : RunOutcome F)
      → (started runner request task w refs r instruct world before).0 ≡ some o
      → Went request task w before o (started runner request task w refs r instruct world before).2
  unfolding started
  started-Went request task w refs (rendered inputs) instruct world before o e =
      instructed-Went request task w refs inputs (instruct inputs) world before o e
  started-Went request task w refs (render_error x) instruct world before o e =
      absurd (ground arith)
  started-Went request task w refs escapes instruct world before o e = absurd (ground arith)

  of_workflow-Went :
      (request : RunRequest) (task : TaskDefinition) (w : WorkflowDefinition F)
      (found : Option (WorkflowDefinition F)) (world : W) (before : Tables F) (o : RunOutcome F)
      → found ≡ some w
      → (of_workflow runner request task found world before).0 ≡ some o
      → Went request task w before o (of_workflow runner request task found world before).2
  unfolding of_workflow
  of_workflow-Went request task w none world before o f e = absurd (ground arith)
  of_workflow-Went request task w (some v) world before o f e =
      let reset = runner.backends.reset task.fixtures world in
      subst
        (λ u.
          Went request task u before o (of_workflow runner request task (some v) world before).2)
        (some_injective v w f)
        (started-Went request task v reset.0
          (render_fields runner.jinja (refs_context runner reset.0) task.inputs)
          (instruction_of runner v) reset.1 before o e)

  pub run-Went :
      (request : RunRequest) (task : TaskDefinition) (w : WorkflowDefinition F) (world : W)
      (before : Tables F) (o : RunOutcome F)
      → lookup task.workflow_id runner.workflows ≡ some w
      → (run runner request task world before).0 ≡ some o
      → Went request task w before o (run runner request task world before).2
  unfolding run
  run-Went request task w world before o f e =
      of_workflow-Went request task w (lookup task.workflow_id runner.workflows) world before o f e
