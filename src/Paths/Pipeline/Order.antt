-- ===== src/Paths/Pipeline/Order.antt =====
-- paths/pipeline.py: in which order the steps of a workflow are traced, and where a run stops.
use agent_roi_console.Common.{
  ℕ, ◌≡◌, refl, Bool, Bool-cases, List, [], ◌∷◌, map, String, Option, none, some, arith, inl, inr,
}
use agent_roi_console.Common.Text.{replace_first_dunder}
use agent_roi_console.Json.{Value, Fields}
use agent_roi_console.Workflows.{StepDefinition, StepType, or_empty}
use agent_roi_console.Workflows.Rendering.{Templates}
use agent_roi_console.Workflows.Transforms.{run_transform}
use agent_roi_console.Paths.{
  Context, Services, Trail, LlmResult, LlmCallError, Chat, Answer, Result, done, PathResult,
  empty_trail, llm_step, tool_step, chat_of, answered, tool_answered, not_allowed, is_listed,
}
use agent_roi_console.Paths.Pipeline.{
  or_template_error, prompt_messages, rendered_args, output_of, run_llm, run_tool,
  run_named_transform, transformed, run, execute_as, execute_step, run_steps, template_context,
}
use agent_roi_console.Paths.Pipeline.Progress.{
  Ran, Shows, finish-Shows, failures, one_trace, bind-Ran, lift-Ran,
}

module _ {F W : Type 0} (services : Services F W) (ctx : Context) (jinja : Templates) where
  answered-Ran :
      (c : Chat) (a : Answer LlmCallError (LlmResult F)) (s : Trail F W)
      → Ran (c.chat_step_id ∷ []) s (answered c a s)
  unfolding answered failures
  answered-Ran c (Answer.returns r) s = one_trace s _ _ refl (λ d. refl)
  answered-Ran c (Answer.raises e) s = one_trace s _ _ refl (λ d. absurd (ground arith))

  -- The world is no part of a trace.
  Ran-world :
      {A : Type 0} (ids : List String) (s : Trail F W) (world : W) (p : Result A × Trail F W)
      → Ran ids (record s { world = world }) p
      → Ran ids s p
  Ran-world ids s world p r = record {
    added = r.added;
    unreached = r.unreached;
    traces_eq = r.traces_eq;
    ids_eq = r.ids_eq;
    at_most_one = r.at_most_one;
    to_the_end = r.to_the_end;
  }

  tool_answered-Ran :
      (step_id name : String) (a : Answer String Fields) (s : Trail F W)
      → Ran (step_id ∷ []) s (tool_answered step_id name a s)
  unfolding tool_answered failures
  tool_answered-Ran step_id name (Answer.returns r) s = one_trace s _ _ refl (λ d. refl)
  tool_answered-Ran step_id name (Answer.raises e) s =
      one_trace s _ _ refl (λ d. absurd (ground arith))

  tool_step-Ran :
      (step_id called : String) (args : Fields) (s : Trail F W)
      → Ran (step_id ∷ []) s (tool_step services ctx step_id called args s)
  unfolding tool_step not_allowed failures
  tool_step-Ran step_id called args s =
      elim (Bool-cases (is_listed (replace_first_dunder called) ctx.tool_list)) [
        | inl h ↦ rw h (Ran-world _ s _ _ (tool_answered-Ran step_id _ _ _))
        | inr h ↦ rw h (one_trace s _ _ refl (λ d. absurd (ground arith)))
      ]

  transformed-Ran :
      (step : StepDefinition) (v : Option Value) (s : Trail F W)
      → Ran (step.step_id ∷ []) s (transformed services ctx jinja step v s)
  unfolding transformed failures
  transformed-Ran step (some v) s = one_trace s _ _ refl (λ d. refl)
  transformed-Ran step none s = one_trace s _ _ refl (λ d. absurd (ground arith))

  llm_step-Ran :
      (step_id step_class : String) (messages : List Value) (max_tokens : ℕ)
      (tools : Option (List Value)) (o_json : Bool) (s : Trail F W)
      → Ran
          (step_id ∷ [])
          s
          (llm_step services ctx step_id step_class messages max_tokens tools o_json s)
  unfolding llm_step
  llm_step-Ran step_id step_class messages max_tokens tools o_json s =
      let c = chat_of ctx step_id step_class messages max_tokens tools o_json in
      Ran-world _ s _ _ (answered-Ran c _ _)

  run_llm-Ran :
      (step : StepDefinition) (context : Fields) (s : Trail F W)
      → Ran (step.step_id ∷ []) s (run_llm services ctx jinja step context s)
  unfolding run_llm
  run_llm-Ran step context s =
      bind-Ran [] (step.step_id ∷ []) _ _ s
        (lift-Ran (or_template_error step.step_id (prompt_messages jinja step context)) s)
        (λ messages t.
          bind-Ran (step.step_id ∷ []) [] _ _ t (llm_step-Ran step.step_id _ messages _ _ _ t)
            (λ result u. lift-Ran (output_of services ctx jinja step result.content) u))

  run_tool-Ran :
      (step : StepDefinition) (context : Fields) (s : Trail F W)
      → Ran (step.step_id ∷ []) s (run_tool services ctx jinja step context s)
  unfolding run_tool
  run_tool-Ran step context s =
      bind-Ran [] (step.step_id ∷ []) _ _ s
        (lift-Ran (or_template_error step.step_id (rendered_args jinja step context)) s)
        (λ args t.
          bind-Ran (step.step_id ∷ []) [] _ _ t
            (tool_step-Ran step.step_id (or_empty step.tool_of) args t)
            (λ result u. lift-Ran (done (Value.dict result)) u))

  run_named_transform-Ran :
      (step : StepDefinition) (context : Fields) (s : Trail F W)
      → Ran (step.step_id ∷ []) s (run_named_transform services ctx jinja step context s)
  unfolding run_named_transform
  run_named_transform-Ran step context s =
      bind-Ran [] (step.step_id ∷ []) _ _ s
        (lift-Ran (or_template_error step.step_id (rendered_args jinja step context)) s)
        (λ args t.
          transformed-Ran step (run_transform services.to_str (or_empty step.transform_of) args) t)

  execute_as-Ran :
      (kind : StepType) (step : StepDefinition) (context : Fields) (s : Trail F W)
      → Ran (step.step_id ∷ []) s (execute_as services ctx jinja kind step context s)
  unfolding execute_as
  execute_as-Ran StepType.llm = run_llm-Ran
  execute_as-Ran StepType.tool = run_tool-Ran
  execute_as-Ran StepType.transform = run_named_transform-Ran

  execute_step-Ran :
      (inputs : Fields) (step : StepDefinition) (steps : Fields) (s : Trail F W)
      → Ran (step.step_id ∷ []) s (execute_step services ctx jinja inputs step steps s)
  unfolding execute_step
  execute_step-Ran inputs step steps s =
      execute_as-Ran step.step_type step (template_context inputs steps) s

  -- A pipeline leaves one trace for each step that it gets to, in the order of the workflow. At most
  -- one of them failed, and none did if the run is done, which then got to all steps.
  pub run_steps-Ran :
      (inputs : Fields) (steps : List StepDefinition) (outputs : Fields) (s : Trail F W)
      → Ran
          (map (λ step. step.step_id) steps)
          s
          (run_steps services ctx jinja inputs steps outputs s)
  unfolding run_steps
  run_steps-Ran inputs [] outputs s = lift-Ran (done outputs) s
  run_steps-Ran inputs (step ∷ rest) outputs s =
      bind-Ran (step.step_id ∷ []) (map (λ step. step.step_id) rest) _ _ s
        (execute_step-Ran inputs step outputs s) (λ output t. run_steps-Ran inputs rest _ t)

  -- What the result of a pipeline shows: the steps that it got to are the first ones of the
  -- workflow, one trace each; at most one of them failed, and if it is completed, it got to all
  -- and none failed.
  pub run_order :
      (inputs : Fields) (steps : List StepDefinition) (world : W) (result : PathResult F)
      → (run services ctx jinja inputs steps world).0 ≡ some result
      → Shows (map (λ step. step.step_id) steps) result
  unfolding run
  run_order inputs steps world result e =
      finish-Shows (map (λ step. step.step_id) steps) (empty_trail world)
        (run_steps services ctx jinja inputs steps Fields.empty (empty_trail world)) result refl e
        (run_steps-Ran inputs steps Fields.empty (empty_trail world))
