-- ===== src/Tests/Runner.antt =====
-- runner/runner.py at a pipeline of one tool and one model step.
use agent_roi_console.Common.{
  ℕ, suc, ◌≡◌, refl, true, false, List, [], ◌∷◌, ◌++◌, map, none, some, All, size,
}
use agent_roi_console.Common.Dict.{lookup}
use agent_roi_console.Common.Sort.{sorted}
use agent_roi_console.Common.Text.{replace_first_dunder}
use agent_roi_console.Json.{Value, Fields, get}
use agent_roi_console.Float.Scaled.{ℤ, pos, scaled}
use agent_roi_console.Workflows.{StepType, Output, StepDefinition, WorkflowDefinition, tool_list}
use agent_roi_console.Workflows.Rendering.{Templates, evaluates}
use agent_roi_console.Paths.{
  ◌>>=◌, lift, tool_step, llm_step, Services, Answer, LlmResult, StepTrace, StepStatus, Detail,
  PathResult, literal,
}
use agent_roi_console.Paths.Pipeline
use agent_roi_console.Paths.Pipeline.Progress.{Shows}
use agent_roi_console.Paths.Pipeline.Order.{run_order}
use agent_roi_console.Paths.Traces.{completions, IsAllowed}
use agent_roi_console.Validators.{EndState, Texts}
use agent_roi_console.Validators.Engine.{check_task_validators}
use agent_roi_console.Validators.Declared.{has_passed}
use agent_roi_console.Runner.{
  TaskDefinition, RunRequest, RunOutcome, RunRow, RunStatus, Tables, TaskRunner, context_of,
}
use agent_roi_console.Runner.Execution.{run}
use agent_roi_console.Runner.Execution.Outcomes.{success-declared, total_used}
use agent_roi_console.Runner.Execution.Rows.{run-run_steps, run-runs}

abbrev answer : LlmResult ℤ
answer = record {
  content = some " 3 deals are stale ";
  tool_calls = [];
  model = "haiku";
  cost_usd = pos 4;
  input_tokens = 120;
  output_tokens = 9;
  cache = "miss";
  fallback_depth = 0;
}

abbrev services : Services ℤ ℕ
services = record {
  chat = λ c w. (Answer.returns answer, suc w);
  call_tool = λ name args run step w. (Answer.returns Fields.empty, suc w);
  describe_tools = λ names w. (some "tools", w);
  openai_tools = λ names w. (some [], w);
  dumps = λ v. "{}";
  loads = λ s. none;
  unfence = λ s. s;
  pieces = λ s. literal s ∷ [];
  whole = λ s. none;
  is_step_id = λ s. true;
  to_str = λ v. "";
}

abbrev jinja : Templates
jinja = record {
  evaluate = λ e context. evaluates (Value.text e);
  render = λ t context. evaluates t;
}

abbrev texts : Texts
texts = record { nfkc = λ s. s; casefold = λ s. s; find_amounts = λ s. []; to_str = λ v. "" }

abbrev read_step : StepDefinition
read_step = record {
  step_id = "deals";
  step_type = StepType.tool;
  tool_of = some "crm.list_opportunities";
  step_class = none;
  args = Fields.field "stage" (Value.text "open") Fields.empty;
  system_prompt = none;
  user_prompt = none;
  output = Output.text;
  max_tokens = 512;
  transform_of = none;
}

abbrev write_step : StepDefinition
write_step = record {
  step_id = "summary";
  step_type = StepType.llm;
  tool_of = none;
  step_class = some "summarize";
  args = Fields.empty;
  system_prompt = none;
  user_prompt = some "Summarize the deals.";
  output = Output.text;
  max_tokens = 512;
  transform_of = none;
}

abbrev workflow : WorkflowDefinition ℤ
workflow = record {
  workflow_id = "pipeline_review";
  tool_cost_usd_per_task = pos 0;
  steps = read_step ∷ write_step ∷ [];
  agent = record {
    planner_step_class = "planning";
    executor_step_class = "summarize";
    react_step_class = "agent_tool_use";
    max_iterations = 10;
    instruction_template = "Review the pipeline.";
  };
  validators = "slack_message_posted" ∷ [];
}

abbrev task : TaskDefinition
task = record {
  task_id = "t1";
  workflow_id = "pipeline_review";
  inputs = Fields.empty;
  fixtures = Fields.empty;
  expected =
      record {
        spec_name = "slack_message_posted";
        args = Fields.field "channel" (Value.text "sales") Fields.empty;
      }
      ∷ [];
}

abbrev posted_state : EndState
posted_state = record {
  slack_messages =
      record {
        channel = "sales";
        ts = "1700000001.000100";
        message_text = "3 deals are stale";
        o_bot = true;
        thread_ts = none;
      }
      ∷ [];
  notion_pages = [];
  crm_activities = [];
}

abbrev runner : TaskRunner ℤ ℕ
runner = record {
  backends = record {
    o_demo = true;
    reset = λ fixtures w. (Fields.empty, w);
    snapshot = λ w. (posted_state, w);
  };
  services = services;
  jinja = jinja;
  texts = texts;
  prompts = record { planner_system = "plan"; executor_system = "execute" };
  react_system = "act";
  workflows = ("pipeline_review", workflow) ∷ [];
  o_persist = true;
}

abbrev request : RunRequest
request = record {
  asked_path = "pipeline";
  asked_model = "auto";
  asked_trigger = "eval";
  o_cache = false;
  asked_run_id = "run-1";
}

abbrev no_tables : Tables ℤ
no_tables = record { runs = []; run_steps = [] }

abbrev outcome : RunOutcome ℤ
outcome = record {
  run_id = "run-1";
  task = "t1";
  workflow = "pipeline_review";
  path = "pipeline";
  model_config = "auto";
  success = true;
  failure_reason = none;
  validator_results = record { name = "slack_message_posted"; passed = true } ∷ [];
  llm_cost = pos 4;
  tool_cost = pos 0;
  input_tokens = 120;
  output_tokens = 9;
  models_used = ("haiku", 1) ∷ [];
}

success_run : (run runner request task 0 no_tables).0 ≡ some outcome
unfolding run size Pipeline.run ◌>>=◌ lift tool_step replace_first_dunder llm_step
    Pipeline.output_of
success_run = refl

abbrev pipeline_result : PathResult ℤ
pipeline_result = record {
  path_status = StepStatus.completed;
  failure_reason = none;
  path_traces =
      record {
        step_id = "deals";
        kind = StepType.tool;
        name = "crm.list_opportunities";
        status = StepStatus.completed;
        detail = Detail.replay (Value.boolean false);
      }
      ∷ record {
        step_id = "summary";
        kind = StepType.llm;
        name = "summarize";
        status = StepStatus.completed;
        detail = Detail.call "haiku" (pos 4) 120 9 "miss" 0;
      }
      ∷ [];
  results = answer ∷ [];
}

pipeline_run :
    (Pipeline.run services
      (context_of runner request workflow)
      jinja
      Fields.empty
      workflow.steps
      0).0
    ≡ some pipeline_result
unfolding Pipeline.run ◌>>=◌ lift size tool_step tool_list replace_first_dunder llm_step
    Pipeline.output_of get
pipeline_run = refl

checks_run : check_task_validators workflow.validators task.expected ≡ true
unfolding check_task_validators sorted
checks_run = refl

finds_workflow : lookup task.workflow_id runner.workflows ≡ some workflow
unfolding lookup
finds_workflow = refl

success-declared_example : has_passed "slack_message_posted" outcome.validator_results ≡ true
success-declared_example =
    success-declared runner request task workflow 0 no_tables outcome "slack_message_posted"
      finds_workflow checks_run success_run refl refl

run-run_steps_example :
    (traces : List (StepTrace ℤ)) × ((run runner request task 0 no_tables).2.run_steps
      ≡ [] ++ map (λ t. ("run-1", t)) traces)
    × (completions traces ≡ total_used (("haiku", 1) ∷ []))
    × All (IsAllowed (context_of runner request workflow)) traces
run-run_steps_example =
    run-run_steps runner request task workflow 0 no_tables outcome refl finds_workflow success_run

run-runs_example :
    (row : RunRow ℤ) × ((run runner request task 0 no_tables).2.runs ≡ [] ++ row ∷ [])
    × (row.row_run_id ≡ "run-1")
    × (row.row_task ≡ "t1")
    × (row.row_path ≡ "pipeline")
    × (row.status ≡ RunStatus.completed)
    × (row.row_reason ≡ none)
    × (row.row_results ≡ outcome.validator_results)
run-runs_example =
    run-runs runner request task workflow 0 no_tables outcome refl finds_workflow success_run

run_order_example : Shows ("deals" ∷ "summary" ∷ []) pipeline_result
run_order_example =
    run_order services (context_of runner request workflow) jinja Fields.empty workflow.steps 0
      pipeline_result pipeline_run
