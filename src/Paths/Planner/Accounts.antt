-- ===== src/Paths/Planner/Accounts.antt =====
-- paths/planner_executor.py: the completions and tools that the result of a planned run accounts for.
use agent_roi_console.Common.{
  ℕ, zero, suc, ◌-◌, ◌≡◌, refl, Bool-cases, inl, inr, List, length, String, some, leb,
}
use agent_roi_console.Json.{Fields, keys}
use agent_roi_console.Workflows.{AgentSettings}
use agent_roi_console.Paths.{Context, Services, PathResult, empty_trail, done}
use agent_roi_console.Paths.Traces.{
  Growing, Grows-refl, bind-Growing, lift-Growing, llm_step-Growing, tool_step-Growing, IsAccounted,
  finish-IsAccounted,
}
use agent_roi_console.Paths.Planner.{has_value}
use agent_roi_console.Paths.Planner.Graph.{
  Prompts, execute_tool, execute_generate, execute, execute_all, plan, list_tools, recursion_limit,
  run_graph, run,
}

module _ {F W : Type 0} (services : Services F W) (ctx : Context) (agent : AgentSettings)
    (prompts : Prompts) where
  execute-Growing :
      (step : String × Fields) (outputs : Fields)
      → Growing ctx (execute services ctx agent prompts step outputs)
  unfolding execute execute_tool execute_generate
  execute-Growing step outputs = elim (Bool-cases (has_value "action" "tool" step.1)) [
    | inl h ↦ rw h (
        bind-Growing ctx _ _ (lift-Growing ctx _) (λ v.
          bind-Growing ctx _ _ (lift-Growing ctx _) (λ args.
            bind-Growing ctx _ _ (tool_step-Growing services ctx _ _ args)
              (λ result. lift-Growing ctx _))))
    | inr h ↦ rw h (
        bind-Growing ctx _ _ (lift-Growing ctx _) (λ inputs.
          bind-Growing ctx _ _ (llm_step-Growing services ctx _ _ _ _ _ _)
            (λ result. lift-Growing ctx _)))
  ]

  execute_all-Growing :
      (limit : ℕ) (steps : List (String × Fields)) (outputs : Fields)
      → Growing ctx (execute_all services ctx agent prompts limit steps outputs)
  unfolding execute_all
  execute_all-Growing zero steps outputs = lift-Growing ctx _
  execute_all-Growing (suc limit) steps outputs =
      elim (Bool-cases (leb (length steps) (length (keys outputs)))) [
        | inl h ↦ rw h (lift-Growing ctx (done outputs))
        | inr h ↦ rw h (
            bind-Growing ctx _ _ (lift-Growing ctx _) (λ step.
              bind-Growing ctx _ _ (execute-Growing step outputs)
                (λ output. execute_all-Growing limit steps _)))
      ]

  -- Asking the servers for their tools leaves no trace.
  list_tools-Growing : Growing ctx (list_tools services ctx)
  unfolding list_tools
  list_tools-Growing s =
      let g = Grows-refl ctx s in
      record {
        added = g.added;
        gained = g.gained;
        traces_eq = g.traces_eq;
        results_eq = g.results_eq;
        counted = g.counted;
        allowed = g.allowed;
      }

  plan-Growing : (instruction : String) → Growing ctx (plan services ctx agent prompts instruction)
  unfolding plan
  plan-Growing instruction = bind-Growing ctx _ _ list_tools-Growing (λ tools.
      bind-Growing ctx _ _ (llm_step-Growing services ctx _ _ _ _ _ _)
        (λ result. lift-Growing ctx _))

  pub run-IsAccounted :
      (instruction : String) (world : W) (result : PathResult F)
      → (run services ctx agent prompts instruction world).0 ≡ some result
      → IsAccounted ctx result
  unfolding run run_graph
  run-IsAccounted instruction world result e =
      finish-IsAccounted ctx (empty_trail world)
        (run_graph services ctx agent prompts instruction (empty_trail world)) result refl refl e
        (bind-Growing ctx _ _ (plan-Growing instruction)
          (λ steps. execute_all-Growing (recursion_limit - 1) steps Fields.empty)
          (empty_trail world))
