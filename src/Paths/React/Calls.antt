-- ===== src/Paths/React/Calls.antt =====
-- paths/react.py: how many completions the agent asks for, and that it always ends in a result.
use agent_roi_console.Common.{
  sym, ℕ, zero, suc, ◌+◌, ◌-◌, ◌≤◌, ◌≡◌, subst, ap, ◌∙◌, Bool-cases, inl, inr, List, [], ◌∷◌,
  length, String, Option, none, some, arith, ltb, leb, leb→le, lt→ltb,
}
use agent_roi_console.Json.{Value, Fields}
use agent_roi_console.Workflows.{AgentSettings}
use agent_roi_console.Paths.{
  Result, done, stops, crashes, Services, Context, Trail, Step, PathResult, empty_trail, ◌>>=◌,
}
use agent_roi_console.Paths.Total.{finish-total, finish-results}
use agent_roi_console.Paths.React.{
  ReactState, agent_node, answer_of, called, function_of, call_content, call_args, run_calls,
  tools_node, initial_state, run_graph, recursion_limit, run_with, run,
}
use agent_roi_console.Paths.React.Replies.{HasCalls}
use agent_roi_console.Paths.React.Turns.{
  IsNext, HasTurn, agent_node-IsNext, tools_node-HasTurn, run_graph-IsTotal,
}
use agent_roi_console.Paths.Asks.{
  Asks, bind-Asks, lift-Asks, if-Asks, bind_any-Asks, llm_step-Asks, tool_step-Asks,
}

module _ {F W : Type 0} (services : Services F W) (ctx : Context) (agent : AgentSettings) where
  answer_of-Asks :
      (s : Trail F W) (p : Result Fields × Trail F W)
      → length p.1.llm_results ≤ length s.llm_results + 0
      → length (answer_of services ctx agent p).1.llm_results ≤ length s.llm_results + 0
  unfolding answer_of
  answer_of-Asks s (done output, t) h = h
  answer_of-Asks s (stops e, t) h = h
  answer_of-Asks s (crashes, t) h = h

  called-Asks :
      (step_id : String) (function : Fields) (args : Option Fields)
      → Asks 0 (called services ctx agent step_id function args)
  unfolding called
  called-Asks step_id function none = lift-Asks 0 _
  called-Asks step_id function (some args) =
      bind_any-Asks 0 0 _ _ (lift-Asks 0 _)
        (λ name s. answer_of-Asks s _ (tool_step-Asks services ctx step_id name args s))

  call_content-Asks :
      (step_id : String) (call : Value) → Asks 0 (call_content services ctx agent step_id call)
  unfolding call_content
  call_content-Asks step_id call =
      bind_any-Asks 0 0 _ _ (lift-Asks 0 (function_of call)) (λ function.
        bind_any-Asks 0 0 _ _ (lift-Asks 0 _)
          (λ text. called-Asks step_id function (call_args services ctx agent text)))

  run_calls-Asks :
      (turn index : ℕ) (calls : List Value) → Asks 0 (run_calls services ctx agent turn index calls)
  unfolding run_calls
  run_calls-Asks turn index [] = lift-Asks 0 (done [])
  run_calls-Asks turn index (call ∷ calls) =
      bind_any-Asks 0 0 _ _ (call_content-Asks _ call) (λ content.
        bind_any-Asks 0 0 _ _ (run_calls-Asks turn (suc index) calls) (λ rest. lift-Asks 0 _))

  tools_node-Asks : (state : ReactState) → Asks 0 (tools_node services ctx agent state)
  unfolding tools_node
  tools_node-Asks state = bind_any-Asks 0 0 _ _ (run_calls-Asks _ _ _) (λ answers. lift-Asks 0 _)

  agent_node-Asks :
      (tools : List Value) (state : ReactState) → Asks 1 (agent_node services ctx agent tools state)
  unfolding agent_node
  agent_node-Asks tools state =
      if-Asks 1 (ltb agent.max_iterations (suc state.turn)) _ _ (lift-Asks 1 _)
        (bind_any-Asks 1 0 _ _ (llm_step-Asks services ctx _ _ _ _ _ _) (λ result. lift-Asks 0 _))

  -- Past the last turn the agent is not asked.
  agent_node-Asks_none :
      (tools : List Value) (state : ReactState)
      → agent.max_iterations ≤ state.turn
      → Asks 0 (agent_node services ctx agent tools state)
  unfolding agent_node
  agent_node-Asks_none tools state h =
      rw (lt→ltb agent.max_iterations (suc state.turn) (omega arith)) (lift-Asks 0 _)

  -- A turn, and what comes behind it.
  turn-Asks :
      {A : Type 0} (tools : List Value) (state : ReactState) (rest : ReactState → Step F W A)
      → ((next : ReactState)
          → next.turn ≡ suc state.turn
          → Asks (agent.max_iterations - suc state.turn) (rest next))
      → Asks
          (agent.max_iterations - state.turn)
          (agent_node services ctx agent tools state >>= rest)
  turn-Asks tools state rest h s = elim (Bool-cases (leb agent.max_iterations state.turn)) [
    | inl e ↦ omega (
      arith,
      bind-Asks (IsNext services ctx agent state.turn) 0 0
          (agent_node services ctx agent tools state) rest
          (agent_node-Asks_none tools state (leb→le agent.max_iterations state.turn e))
          (agent_node-IsNext services ctx agent tools state)
          (λ next t. absurd (ground (arith, t.1))) s,
    )
    | inr e ↦ ground (
      arith,
      bind-Asks (IsNext services ctx agent state.turn) 1 (agent.max_iterations - suc state.turn)
          (agent_node services ctx agent tools state) rest (agent_node-Asks tools state)
          (agent_node-IsNext services ctx agent tools state) (λ next t. h next t.0) s,
    )
  ]

  -- The tools of a turn, and the turns behind it.
  answered-turn-Asks :
      (limit n : ℕ) (tools : List Value) (next : ReactState)
      → ((answered : ReactState)
          → answered.turn ≡ next.turn
          → Asks n (run_graph services ctx agent limit tools answered))
      → Asks n (
          tools_node services ctx agent next >>= λ answered.
          run_graph services ctx agent limit tools answered)
  answered-turn-Asks limit n tools next h s = omega (
    arith,
    bind-Asks (HasTurn services ctx agent next.turn) 0 n (tools_node services ctx agent next)
        (λ answered. run_graph services ctx agent limit tools answered) (tools_node-Asks next)
        (tools_node-HasTurn services ctx agent next) h s,
  )

  run_graph-Asks :
      (limit : ℕ) (tools : List Value) (state : ReactState)
      → Asks (agent.max_iterations - state.turn) (run_graph services ctx agent limit tools state)
  unfolding run_graph
  run_graph-Asks zero tools state = lift-Asks _ crashes
  run_graph-Asks (suc zero) tools state = turn-Asks tools state _ (λ next t. lift-Asks _ _)
  run_graph-Asks (suc (suc limit)) tools state = turn-Asks tools state _ (λ next t.
      if-Asks (agent.max_iterations - suc state.turn) next.o_done _ _ (lift-Asks _ (done next)) (
        answered-turn-Asks limit (agent.max_iterations - suc state.turn) tools next (λ answered u.
          subst
            (λ n.
              Asks (agent.max_iterations - n) (run_graph services ctx agent limit tools answered))
            (u ∙ t) (run_graph-Asks limit tools answered))))

  run_with-ends :
      (tools : List Value) (system instruction : String) (world : W)
      → HasCalls services ctx agent
      → (result : PathResult F) × ((run_with services ctx agent
            (some tools)
            system
            instruction
            world).0
          ≡ some result)
        × (length result.results ≤ agent.max_iterations)
  unfolding run_with
  run_with-ends tools system instruction world h =
      let limit = recursion_limit services ctx agent in
      let initial = initial_state system instruction in
      let ended = run_graph services ctx agent limit tools initial (empty_trail world) in
      let (result, e) = finish-total ended (
        run_graph-IsTotal services ctx agent limit tools initial h (omega arith)
          (empty_trail world)) in
      (
        result,
        e,
        omega (
          arith,
          ap (λ rs. length rs) (finish-results ended result e),
          run_graph-Asks limit tools initial (empty_trail world),
        ),
      )

  -- Where the toolbox has the tools of the workflow and every tool call of the gateway has the
  -- parts that the agent reads as texts, a run of the agent ends with a result, whatever the tools
  -- answer, and with at most as many answers of the gateway as it has turns.
  pub run_ends :
      (system instruction : String) (world : W) (tools : List Value)
      → HasCalls services ctx agent
      → (services.openai_tools ctx.tool_list world).0 ≡ some tools
      → (result : PathResult F) × ((run services ctx agent system instruction world).0
          ≡ some result)
        × (length result.results ≤ agent.max_iterations)
  unfolding run
  run_ends system instruction world tools h found =
      let world' = (services.openai_tools ctx.tool_list world).1 in
      subst
        (λ o.
          (result : PathResult F) × ((run_with services ctx agent o system instruction world').0
            ≡ some result)
          × (length result.results ≤ agent.max_iterations))
        (sym found) (run_with-ends tools system instruction world' h)
