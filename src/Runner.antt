-- ===== src/Runner.antt =====
-- runner/runner.py: one task from the reset of the workspace to the rows of its run, on a path of
-- paths/registry.py. Backends are the interface of the connectors; times, latencies and metrics are
-- left out. An instruction is the text that its template renders to.
pub mod Execution
use agent_roi_console.Common.{
  ℕ, zero, suc, ◌+◌, Bool, true, false, ◌&&◌, not, List, [], ◌∷◌, ◌++◌, map, String, Option, none,
  some, str_eq, if◌then◌else◌,
}
use agent_roi_console.Common.Dict.{Dict, lookup, insert}
use agent_roi_console.Json.{Value, Fields}
use agent_roi_console.Float.{Float}
use agent_roi_console.Workflows.{StepDefinition, AgentSettings, WorkflowDefinition, tool_list}
use agent_roi_console.Workflows.Rendering.{
  Templates, Rendered, rendered, render_error, escapes, render_value, render_fields,
}
use agent_roi_console.Workflows.Transforms.{str_of}
use agent_roi_console.Paths.{
  Context, Services, StepTrace, StepStatus, LlmResult, PathResult, llm_cost_usd, input_tokens_of,
  output_tokens_of,
}
use agent_roi_console.Paths.Pipeline
use agent_roi_console.Paths.Planner.Graph.{Prompts}
use agent_roi_console.Paths.Planner.Graph
use agent_roi_console.Paths.React
use agent_roi_console.Validators.{EndState, ValidatorResult, Texts}
use agent_roi_console.Validators.Engine.{ValidatorSpec, run_validators, all_passed}

pub record TaskDefinition : Type 0 where
  pub task_id : String
  pub workflow_id : String
  pub inputs : Fields
  pub fixtures : Fields
  pub expected : List ValidatorSpec

-- ConnectorBackends, as far as the runner calls it
pub record Backends (W : Type 0) : Type 0 where
  pub o_demo : Bool
  -- the refs of the fixtures
  pub reset : Fields → W → Fields × W
  -- what was created since the reset
  pub snapshot : W → EndState × W

pub data RunStatus : Type 0 where
  running completed failed : RunStatus

-- A row of `runs`.
pub record RunRow (F : Type 0) : Type 0 where
  pub row_run_id : String
  pub row_workflow : String
  pub row_task : String
  pub row_path : String
  pub row_model : String
  pub trigger : String
  pub demo : Bool
  pub status : RunStatus
  pub row_success : Option Bool
  pub row_reason : Option String
  pub row_results : List ValidatorResult
  pub row_cost : Option F
  pub row_tool_cost : Option F
  pub row_input_tokens : ℕ
  pub row_output_tokens : ℕ

-- The tables `runs`, and `run_steps` with the run of each step.
pub record Tables (F : Type 0) : Type 0 where
  pub runs : List (RunRow F)
  pub run_steps : List (String × StepTrace F)

pub record RunOutcome (F : Type 0) : Type 0 where
  pub run_id : String
  pub task : String
  pub workflow : String
  pub path : String
  pub model_config : String
  pub success : Bool
  pub failure_reason : Option String
  pub validator_results : List ValidatorResult
  pub llm_cost : F
  pub tool_cost : F
  pub input_tokens : ℕ
  pub output_tokens : ℕ
  pub models_used : Dict ℕ

-- What a run is asked for.
pub record RunRequest : Type 0 where
  pub asked_path : String
  pub asked_model : String
  pub asked_trigger : String
  pub o_cache : Bool
  pub asked_run_id : String

-- What the runner is made with, and the files that it loads.
pub record TaskRunner (F W : Type 0) : Type 0 where
  pub backends : Backends W
  pub services : Services F W
  pub jinja : Templates
  pub texts : Texts
  pub prompts : Prompts
  pub react_system : String
  pub workflows : Dict (WorkflowDefinition F)
  pub o_persist : Bool

-- `models_used.get(model, 0)`
abbrev pub or_zero : Option ℕ → ℕ
or_zero none = 0
or_zero (some n) = n

module _ {F : Type 0} where
  unfoldable pub count_models : List (LlmResult F) → Dict ℕ → Dict ℕ
  unfolding insert lookup
  count_models [] used = used
  count_models (r ∷ rs) used =
      count_models rs (insert r.model (suc (or_zero (lookup r.model used))) used)

module _ {F W : Type 0} ⦃fl : Float F⦄ (runner : TaskRunner F W) where
  abbrev pub context_of : RunRequest → WorkflowDefinition F → Context
  context_of request w = record {
    workflow = w.workflow_id;
    tool_list = tool_list w;
    run = request.asked_run_id;
    model_config = request.asked_model;
    cache_on = request.o_cache;
  }

  -- `get_path(path_name).run(ctx)`; `none` is an exception, as a KeyError of an unknown name
  unfoldable pub run_path :
      RunRequest → WorkflowDefinition F → Fields → String → W → Option (PathResult F) × W
  unfolding tool_list
  run_path request w inputs instruction world =
      let ctx = context_of request w in
      if str_eq request.asked_path "pipeline"
      then Pipeline.run runner.services ctx runner.jinja inputs w.steps world
      else if str_eq request.asked_path "planner_executor"
      then Graph.run runner.services ctx w.agent runner.prompts instruction world
      else if str_eq request.asked_path "react"
      then React.run runner.services ctx w.agent runner.react_system instruction world
      else (none, world)

  abbrev pub is_completed : PathResult F → Bool
  is_completed result = elim result.path_status [
    | StepStatus.completed ↦ true
    | StepStatus.failed ↦ false
  ]

  abbrev pub reason_or : Option String → Option String
  reason_or none = some "validators_failed"
  reason_or (some r) = some r

  unfoldable pub outcome_of :
      RunRequest
      → TaskDefinition
      → WorkflowDefinition F
      → PathResult F
      → List ValidatorResult
      → RunOutcome F
  unfolding count_models llm_cost_usd
  outcome_of request task w result validated =
      let o_success = is_completed result && all_passed validated in
      record {
        run_id = request.asked_run_id;
        task = task.task_id;
        workflow = task.workflow_id;
        path = request.asked_path;
        model_config = request.asked_model;
        success = o_success;
        failure_reason = if o_success then none else reason_or result.failure_reason;
        validator_results = validated;
        llm_cost = llm_cost_usd result;
        tool_cost = w.tool_cost_usd_per_task;
        input_tokens = input_tokens_of result;
        output_tokens = output_tokens_of result;
        models_used = count_models result.results [];
      }

  abbrev pub running_row : RunRequest → TaskDefinition → RunRow F
  running_row request task = record {
    row_run_id = request.asked_run_id;
    row_workflow = task.workflow_id;
    row_task = task.task_id;
    row_path = request.asked_path;
    row_model = request.asked_model;
    trigger = request.asked_trigger;
    demo = runner.backends.o_demo;
    status = RunStatus.running;
    row_success = none;
    row_reason = none;
    row_results = [];
    row_cost = none;
    row_tool_cost = none;
    row_input_tokens = 0;
    row_output_tokens = 0;
  }

  -- `_insert_run`
  unfoldable pub insert_run : RunRequest → TaskDefinition → Tables F → Tables F
  insert_run request task tables =
      if runner.o_persist
      then record tables { runs = tables.runs ++ running_row request task ∷ [] }
      else tables

  abbrev pub completed_row : RunOutcome F → RunRow F → RunRow F
  completed_row o row = record row {
    status = if o.success then RunStatus.completed else RunStatus.failed;
    row_success = some o.success;
    row_reason = o.failure_reason;
    row_results = o.validator_results;
    row_cost = some o.llm_cost;
    row_tool_cost = some o.tool_cost;
    row_input_tokens = o.input_tokens;
    row_output_tokens = o.output_tokens;
  }

  -- The primary key of `runs`: its `INSERT` raises for a run id that has a row.
  unfoldable pub has_run : String → List (RunRow F) → Bool
  has_run id [] = false
  has_run id (row ∷ rows) = if str_eq row.row_run_id id then true else has_run id rows

  abbrev pub is_duplicate : RunRequest → Tables F → Bool
  is_duplicate request tables =
      if runner.o_persist then has_run request.asked_run_id tables.runs else false

  -- `UPDATE runs SET … WHERE run_id = ?`
  unfoldable pub update_runs : RunOutcome F → List (RunRow F) → List (RunRow F)
  update_runs o [] = []
  update_runs o (row ∷ rows) =
      (if str_eq row.row_run_id o.run_id then completed_row o row else row) ∷ update_runs o rows

  -- `_complete_run`
  unfoldable pub complete_run : RunOutcome F → List (StepTrace F) → Tables F → Tables F
  unfolding update_runs
  complete_run o traces tables =
      if runner.o_persist
      then record {
        runs = update_runs o tables.runs;
        run_steps = tables.run_steps ++ map (λ t. (o.run_id, t)) traces;
      }
      else tables
