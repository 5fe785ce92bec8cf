-- ===== src/Paths/Pipeline/Accounts.antt =====
-- paths/pipeline.py: the completions and tools that the result of a pipeline accounts for.
use agent_roi_console.Common.{◌≡◌, refl, sym, List, [], ◌∷◌, Option, none, some, arith}
use mathlib.Core.List.{append-nil}
use agent_roi_console.Json.{Value, Fields}
use agent_roi_console.Workflows.{StepDefinition, StepType, or_empty}
use agent_roi_console.Workflows.Rendering.{Templates}
use agent_roi_console.Workflows.Transforms.{run_transform}
use agent_roi_console.Paths.{Context, Services, Trail, PathResult, empty_trail, done}
use agent_roi_console.Paths.Traces.{
  Growing, completions, bind-Growing, lift-Growing, llm_step-Growing, tool_step-Growing,
  IsAccounted, finish-IsAccounted,
}
use agent_roi_console.Paths.Pipeline.{
  or_template_error, prompt_messages, rendered_args, output_of, run_llm, run_tool,
  run_named_transform, transformed, execute_as, execute_step, run_steps, template_context, run,
}

module _ {F W : Type 0} (services : Services F W) (ctx : Context) (jinja : Templates) where
  transformed-Growing :
      (step : StepDefinition) (v : Option Value)
      → Growing ctx (transformed services ctx jinja step v)
  unfolding transformed completions
  transformed-Growing step (some v) s = record {
    added = _ ∷ [];
    gained = [];
    traces_eq = refl;
    results_eq = sym (append-nil s.llm_results);
    counted = omega arith;
    allowed = (tt, tt);
  }
  transformed-Growing step none s = record {
    added = _ ∷ [];
    gained = [];
    traces_eq = refl;
    results_eq = sym (append-nil s.llm_results);
    counted = omega arith;
    allowed = (tt, tt);
  }

  execute_as-Growing :
      (kind : StepType) (step : StepDefinition) (context : Fields)
      → Growing ctx (execute_as services ctx jinja kind step context)
  unfolding execute_as run_llm run_tool run_named_transform
  execute_as-Growing StepType.llm step context =
      bind-Growing ctx _ _
        (lift-Growing ctx (or_template_error step.step_id (prompt_messages jinja step context)))
        (λ messages.
          bind-Growing ctx _ _ (llm_step-Growing services ctx step.step_id _ messages _ _ _)
            (λ result. lift-Growing ctx (output_of services ctx jinja step result.content)))
  execute_as-Growing StepType.tool step context =
      bind-Growing ctx _ _
        (lift-Growing ctx (or_template_error step.step_id (rendered_args jinja step context)))
        (λ args.
          bind-Growing ctx _ _
            (tool_step-Growing services ctx step.step_id (or_empty step.tool_of) args)
            (λ result. lift-Growing ctx (done (Value.dict result))))
  execute_as-Growing StepType.transform step context =
      bind-Growing ctx _ _
        (lift-Growing ctx (or_template_error step.step_id (rendered_args jinja step context)))
        (λ args.
          transformed-Growing step
            (run_transform services.to_str (or_empty step.transform_of) args))

  run_steps-Growing :
      (inputs : Fields) (steps : List StepDefinition) (outputs : Fields)
      → Growing ctx (run_steps services ctx jinja inputs steps outputs)
  unfolding run_steps execute_step
  run_steps-Growing inputs [] outputs = lift-Growing ctx (done outputs)
  run_steps-Growing inputs (step ∷ rest) outputs =
      bind-Growing ctx _ _
        (execute_as-Growing step.step_type step (template_context inputs outputs))
        (λ output. run_steps-Growing inputs rest _)

  pub run-IsAccounted :
      (inputs : Fields) (steps : List StepDefinition) (world : W) (result : PathResult F)
      → (run services ctx jinja inputs steps world).0 ≡ some result
      → IsAccounted ctx result
  unfolding run
  run-IsAccounted inputs steps world result e =
      let start : Trail F W = empty_trail world in
      finish-IsAccounted ctx start (run_steps services ctx jinja inputs steps Fields.empty start)
        result refl refl e (run_steps-Growing inputs steps Fields.empty start)
