-- ===== src/Paths/Pipeline.antt =====
-- paths/pipeline.py: the declared steps of a workflow in order, until the first that fails. The graph
-- is a chain with one node for each step, which the library runs in that order. The text of an
-- exception from a transform or from the parsing of an answer is a fixed one.
pub mod Progress
pub mod Order
pub mod Accounts
use agent_roi_console.Common.{
  ℕ, Bool, true, false, List, [], ◌∷◌, ◌++◌, String, Option, none, some, join, str_eq,
  if◌then◌else◌,
}
use agent_roi_console.Common.Text.{strip}
use agent_roi_console.Json.{Value, Items, Fields, with_field}
use agent_roi_console.Workflows.{
  StepDefinition, StepType, Output, WorkflowDefinition, or_empty, is_given,
}
use agent_roi_console.Workflows.Rendering.{
  Templates, Rendered, rendered, render_error, escapes, bind, render_string, render_value,
}
use agent_roi_console.Workflows.Transforms.{run_transform}
use agent_roi_console.Paths.{
  PathError, Result, done, stops, crashes, StepTrace, StepStatus, Detail, LlmResult, Services,
  Context, Trail, Step, PathResult, after, ◌>>=◌, lift, llm_step, tool_step, with_trace, finish,
  empty_trail,
}
use agent_roi_console.Paths.Output.{parse_json_output}

-- `template_context`
abbrev pub template_context : Fields → Fields → Fields
template_context inputs steps =
    Fields.field "inputs" (Value.dict inputs) (Fields.field "steps" (Value.dict steps) Fields.empty)

abbrev pub message_of : String → Value → Value
message_of role content =
    Value.dict (Fields.field "role" (Value.text role) (Fields.field "content" content Fields.empty))

-- `f"{step_id}: {exc}"`
abbrev pub step_error : String → String → String → PathError
step_error reason step_id message = record {
  reason = reason;
  message = join (step_id ∷ ": " ∷ message ∷ []);
}

module _ {A : Type 0} where
  abbrev pub or_template_error : String → Rendered A → Result A
  or_template_error step_id (rendered a) = done a
  or_template_error step_id (render_error e) = stops (step_error "template_error" step_id e)
  or_template_error step_id escapes = crashes

-- The messages of a step that calls a model.
unfoldable pub prompt_messages : Templates → StepDefinition → Fields → Rendered (List Value)
unfolding render_string
prompt_messages jinja step context =
    let user =
      bind (render_string jinja (or_empty step.user_prompt) context)
        (λ u. rendered (message_of "user" u ∷ [])) in
    if is_given step.system_prompt
    then bind (render_string jinja (or_empty step.system_prompt) context)
        (λ p. bind user (λ ms. rendered (message_of "system" p ∷ ms)))
    else user

-- `render_value` of a dict of arguments is a dict.
unfoldable pub rendered_args : Templates → StepDefinition → Fields → Rendered Fields
unfolding render_value
rendered_args jinja step context =
    bind (render_value jinja context (Value.dict step.args))
      (λ v. elim v [ Value.dict d ↦ rendered d | _ ↦ escapes ])

module _ {F W : Type 0} (services : Services F W) (ctx : Context) (jinja : Templates) where
  -- What a step makes of a model's answer.
  unfoldable pub output_of : StepDefinition → Option String → Result Value
  unfolding strip parse_json_output
  output_of step content = elim step.output [
    | Output.text ↦
        let said = strip (or_empty content) in
        if str_eq said ""
        then stops (record {
          reason = "empty_output";
          message = join (step.step_id ∷ " returned no text" ∷ []);
        })
        else done (Value.text said)
    | Output.json ↦ elim (parse_json_output services content) [
      | none ↦ stops (step_error "invalid_json" step.step_id "no JSON")
      | some v ↦ done v
    ]
  ]

  unfoldable pub run_llm : StepDefinition → Fields → Step F W Value
  unfolding prompt_messages
  run_llm step context = do
    messages ← lift (or_template_error step.step_id (prompt_messages jinja step context))
    result ←
        llm_step services ctx step.step_id (or_empty step.step_class) messages step.max_tokens none
          (elim step.output [ Output.json ↦ true | Output.text ↦ false ])
    lift (output_of step result.content)

  unfoldable pub run_tool : StepDefinition → Fields → Step F W Value
  unfolding rendered_args
  run_tool step context = do
    args ← lift (or_template_error step.step_id (rendered_args jinja step context))
    result ← tool_step services ctx step.step_id (or_empty step.tool_of) args
    lift (done (Value.dict result))

  abbrev transform_trace : StepDefinition → StepStatus → Detail F → StepTrace F
  transform_trace step status detail = record {
    step_id = step.step_id;
    kind = StepType.transform;
    name = or_empty step.transform_of;
    status = status;
    detail = detail;
  }

  transformed : StepDefinition → Option Value → Step F W Value
  transformed step (some v) s =
      (done v, with_trace (transform_trace step StepStatus.completed Detail.nothing) s)
  transformed step none s = (
    stops (step_error "transform_error" step.step_id "the transform failed"),
    with_trace (transform_trace step StepStatus.failed (Detail.error "the transform failed")) s,
  )

  unfoldable pub run_named_transform : StepDefinition → Fields → Step F W Value
  unfolding rendered_args transformed
  run_named_transform step context = do
    args ← lift (or_template_error step.step_id (rendered_args jinja step context))
    transformed step (run_transform services.to_str (or_empty step.transform_of) args)

  unfoldable pub execute_as : StepType → StepDefinition → Fields → Step F W Value
  unfolding run_llm run_tool run_named_transform
  execute_as StepType.llm = run_llm
  execute_as StepType.tool = run_tool
  execute_as StepType.transform = run_named_transform

  unfoldable pub execute_step : Fields → StepDefinition → Fields → Step F W Value
  unfolding execute_as
  execute_step inputs step steps = execute_as step.step_type step (template_context inputs steps)

  -- The nodes of the graph, and what `steps` holds behind the last.
  unfoldable pub run_steps : Fields → List StepDefinition → Fields → Step F W Fields
  unfolding execute_step
  run_steps inputs [] steps = lift (done steps)
  run_steps inputs (step ∷ rest) steps = execute_step inputs step steps >>= λ output.
      run_steps inputs rest
        (with_field step.step_id (Value.dict (Fields.field "output" output Fields.empty)) steps)

  -- `PipelinePath.run`
  unfoldable pub run : Fields → List StepDefinition → W → Option (PathResult F) × W
  unfolding run_steps finish
  run inputs steps world =
      let ended = run_steps inputs steps Fields.empty (empty_trail world) in
      (finish ended, ended.1.world)
