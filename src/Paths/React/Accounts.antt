-- ===== src/Paths/React/Accounts.antt =====
-- paths/react.py: the completions and tools that the result of the agent accounts for.
use agent_roi_console.Common.{
  ℕ, zero, suc, ◌≡◌, refl, arith, List, [], ◌∷◌, String, Option, none, some, ltb,
}
use agent_roi_console.Json.{Value, Fields}
use agent_roi_console.Workflows.{AgentSettings}
use agent_roi_console.Paths.{
  Context, Services, Trail, PathResult, empty_trail, Result, done, stops, crashes,
}
use agent_roi_console.Paths.Traces.{
  Grows, Growing, bind-Growing, lift-Growing, if-Growing, llm_step-Growing, tool_step-Growing,
  IsAccounted, finish-IsAccounted,
}
use agent_roi_console.Paths.React.{
  ReactState, agent_node, answer_of, called, function_of, call_content, call_args, run_calls,
  tools_node, run_graph, recursion_limit, run_with, run,
}

module _ {F W : Type 0} (services : Services F W) (ctx : Context) (agent : AgentSettings) where
  answer_of-Grows :
      (s : Trail F W) (p : Result Fields × Trail F W)
      → Grows ctx s p.1
      → Grows ctx s (answer_of services ctx agent p).1
  unfolding answer_of
  answer_of-Grows s (done output, t) g = g
  answer_of-Grows s (stops e, t) g = g
  answer_of-Grows s (crashes, t) g = g

  called-Growing :
      (step_id : String) (function : Fields) (args : Option Fields)
      → Growing ctx (called services ctx agent step_id function args)
  unfolding called
  called-Growing step_id function none = lift-Growing ctx _
  called-Growing step_id function (some args) =
      bind-Growing ctx _ _ (lift-Growing ctx _)
        (λ name s. answer_of-Grows s _ (tool_step-Growing services ctx step_id name args s))

  call_content-Growing :
      (step_id : String) (call : Value) → Growing ctx (call_content services ctx agent step_id call)
  unfolding call_content
  call_content-Growing step_id call =
      bind-Growing ctx _ _ (lift-Growing ctx (function_of call)) (λ function.
        bind-Growing ctx _ _ (lift-Growing ctx _)
          (λ text. called-Growing step_id function (call_args services ctx agent text)))

  run_calls-Growing :
      (turn index : ℕ) (calls : List Value)
      → Growing ctx (run_calls services ctx agent turn index calls)
  unfolding run_calls
  run_calls-Growing turn index [] = lift-Growing ctx (done [])
  run_calls-Growing turn index (call ∷ calls) =
      bind-Growing ctx _ _ (call_content-Growing _ call) (λ content.
        bind-Growing ctx _ _ (run_calls-Growing turn (suc index) calls)
          (λ rest. lift-Growing ctx _))

  agent_node-Growing :
      (tools : List Value) (state : ReactState)
      → Growing ctx (agent_node services ctx agent tools state)
  unfolding agent_node
  agent_node-Growing tools state =
      if-Growing ctx (ltb agent.max_iterations (suc state.turn)) _ _ (lift-Growing ctx _) (
        bind-Growing ctx _ _ (llm_step-Growing services ctx _ _ _ _ _ _)
          (λ result. lift-Growing ctx _))

  tools_node-Growing : (state : ReactState) → Growing ctx (tools_node services ctx agent state)
  unfolding tools_node
  tools_node-Growing state =
      bind-Growing ctx _ _ (run_calls-Growing _ _ _) (λ answers. lift-Growing ctx _)

  run_graph-Growing :
      (limit : ℕ) (tools : List Value) (state : ReactState)
      → Growing ctx (run_graph services ctx agent limit tools state)
  unfolding run_graph
  run_graph-Growing zero tools state = lift-Growing ctx crashes
  run_graph-Growing (suc zero) tools state =
      bind-Growing ctx _ _ (agent_node-Growing tools state) (λ next. lift-Growing ctx _)
  run_graph-Growing (suc (suc limit)) tools state =
      bind-Growing ctx _ _ (agent_node-Growing tools state) (λ next.
        if-Growing ctx next.o_done _ _ (lift-Growing ctx (done next)) (
          bind-Growing ctx _ _ (tools_node-Growing next)
            (λ answered. run_graph-Growing limit tools answered)))

  run_with-IsAccounted :
      (o : Option (List Value)) (system instruction : String) (world : W) (result : PathResult F)
      → (run_with services ctx agent o system instruction world).0 ≡ some result
      → IsAccounted ctx result
  unfolding run_with
  run_with-IsAccounted none system instruction world result e = absurd (ground arith)
  run_with-IsAccounted (some tools) system instruction world result e =
      finish-IsAccounted ctx (empty_trail world)
        (run_graph services ctx agent _ tools _ (empty_trail world)) result refl refl e
        (run_graph-Growing (recursion_limit services ctx agent) tools _ (empty_trail world))

  pub run-IsAccounted :
      (system instruction : String) (world : W) (result : PathResult F)
      → (run services ctx agent system instruction world).0 ≡ some result
      → IsAccounted ctx result
  unfolding run
  run-IsAccounted system instruction world result e =
      let (tools, world') = services.openai_tools ctx.tool_list world in
      run_with-IsAccounted tools system instruction world' result e
