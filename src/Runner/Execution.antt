-- ===== src/Runner/Execution.antt =====
-- runner/runner.py: TaskRunner.run, in the order of its steps. Each way to an exception ends the run
-- with the tables as they are then.
pub mod Persistence
pub mod Outcomes
pub mod Rows
use agent_roi_console.Common.{
  ℕ, zero, suc, ◌+◌, Bool, true, false, ◌&&◌, not, List, [], ◌∷◌, ◌++◌, map, String, Option, none,
  some, str_eq, if◌then◌else◌,
}
use agent_roi_console.Common.Dict.{Dict, lookup, insert}
use agent_roi_console.Json.{Value, Fields}
use agent_roi_console.Float.{Float}
use agent_roi_console.Workflows.{StepDefinition, AgentSettings, WorkflowDefinition, tool_list}
use agent_roi_console.Workflows.Rendering.{
  Templates, Rendered, rendered, render_error, escapes, render_value, render_fields,
}
use agent_roi_console.Workflows.Transforms.{str_of}
use agent_roi_console.Paths.{
  Context, Services, StepTrace, StepStatus, LlmResult, PathResult, llm_cost_usd, input_tokens_of,
  output_tokens_of,
}
use agent_roi_console.Paths.Pipeline
use agent_roi_console.Paths.Planner.Graph.{Prompts}
use agent_roi_console.Paths.Planner.Graph
use agent_roi_console.Paths.React
use agent_roi_console.Validators.{EndState, ValidatorResult, Texts}
use agent_roi_console.Validators.Engine.{ValidatorSpec, run_validators, all_passed}
use agent_roi_console.Runner.{
  TaskDefinition, RunRequest, RunOutcome, Tables, TaskRunner, run_path, outcome_of, insert_run,
  complete_run, has_run, is_duplicate,
}

module _ {F W : Type 0} ⦃fl : Float F⦄ (runner : TaskRunner F W) where
  -- The validators of a run that returned a result, its outcome, and the rows of it.
  validated :
      RunRequest
      → TaskDefinition
      → WorkflowDefinition F
      → PathResult F
      → Rendered (List ValidatorResult)
      → W
      → Tables F
      → Option (RunOutcome F) × W × Tables F
  unfolding outcome_of complete_run
  validated request task w result (rendered results) world tables =
      let o = outcome_of runner request task w result results in
      (some o, world, complete_run runner o result.path_traces tables)
  validated request task w result (render_error e) world tables = (none, world, tables)
  validated request task w result escapes world tables = (none, world, tables)

  checked :
      RunRequest
      → TaskDefinition
      → WorkflowDefinition F
      → Fields
      → Fields
      → Option (PathResult F) × W
      → Tables F
      → Option (RunOutcome F) × W × Tables F
  unfolding validated run_validators
  checked request task w refs inputs (none, world) tables = (none, world, tables)
  checked request task w refs inputs (some result, world) tables =
      let (state, world') = runner.backends.snapshot world in
      validated request task w result
        (run_validators F runner.texts runner.jinja task.expected state refs inputs) world' tables

  abbrev pub refs_context : Fields → Fields
  refs_context refs = Fields.field "refs" (Value.dict refs) Fields.empty

  abbrev inputs_context : Fields → Fields
  inputs_context inputs = Fields.field "inputs" (Value.dict inputs) Fields.empty

  -- The run from its row on, and whether that row is a duplicate.
  inserted :
      RunRequest
      → TaskDefinition
      → WorkflowDefinition F
      → Fields
      → Fields
      → String
      → Bool
      → W
      → Tables F
      → Option (RunOutcome F) × W × Tables F
  unfolding insert_run run_path checked
  inserted request task w refs inputs instruction true world tables = (none, world, tables)
  inserted request task w refs inputs instruction false world tables =
      checked request task w refs inputs (run_path runner request w inputs instruction world)
        (insert_run runner request task tables)

  -- The run once its instruction is rendered.
  instructed :
      RunRequest
      → TaskDefinition
      → WorkflowDefinition F
      → Fields
      → Fields
      → Rendered Value
      → W
      → Tables F
      → Option (RunOutcome F) × W × Tables F
  unfolding has_run inserted
  instructed request task w refs inputs (rendered v) world tables =
      inserted request task w refs inputs (str_of runner.texts.to_str v)
        (is_duplicate runner request tables) world tables
  instructed request task w refs inputs (render_error e) world tables = (none, world, tables)
  instructed request task w refs inputs escapes world tables = (none, world, tables)

  -- The run once its inputs are rendered.
  started :
      RunRequest
      → TaskDefinition
      → WorkflowDefinition F
      → Fields
      → Rendered Fields
      → (Fields → Rendered Value)
      → W
      → Tables F
      → Option (RunOutcome F) × W × Tables F
  unfolding instructed
  started request task w refs (rendered inputs) instruct world tables =
      instructed request task w refs inputs (instruct inputs) world tables
  started request task w refs (render_error e) instruct world tables = (none, world, tables)
  started request task w refs escapes instruct world tables = (none, world, tables)

  abbrev pub instruction_of : WorkflowDefinition F → Fields → Rendered Value
  instruction_of w inputs =
      render_value runner.jinja (inputs_context inputs) (Value.text w.agent.instruction_template)

  of_workflow :
      RunRequest
      → TaskDefinition
      → Option (WorkflowDefinition F)
      → W
      → Tables F
      → Option (RunOutcome F) × W × Tables F
  unfolding render_fields render_value started
  of_workflow request task none world tables = (none, world, tables)
  of_workflow request task (some w) world tables =
      let (refs, world') = runner.backends.reset task.fixtures world in
      started request task w refs (render_fields runner.jinja (refs_context refs) task.inputs)
        (instruction_of w) world' tables

  -- `TaskRunner.run`, where no outcome is an exception
  unfoldable pub run :
      RunRequest → TaskDefinition → W → Tables F → Option (RunOutcome F) × W × Tables F
  unfolding lookup of_workflow
  run request task world tables =
      of_workflow request task (lookup task.workflow_id runner.workflows) world tables
