-- ===== src/Paths/React/Turns.antt =====
-- paths/react.py: the agent ends within its turns and the recursion limit.
use agent_roi_console.Common.{
  ℕ, zero, suc, ◌+◌, ◌-◌, ◌*◌, ◌≤◌, ◌≡◌, refl, Bool-cases, inl, inr, List, All, arith, ltb,
}
use agent_roi_console.Json.{Value}
use agent_roi_console.Workflows.{AgentSettings}
use agent_roi_console.Paths.{done, stops, Services, Context}
use agent_roi_console.Paths.Total.{
  if-IsTotal, not_done, IsTotal, Gives, bind-Gives, done-Gives, bind_given-IsTotal, bind-IsTotal,
  lift-IsTotal, llm_step-IsTotal,
}
use agent_roi_console.Paths.React.Replies.{IsCall, HasCalls, tools_node-IsTotal, agent_node-Gives}
use agent_roi_console.Paths.React.{ReactState, agent_node, calls_of, tools_node, run_graph}

module _ {F W : Type 0} (services : Services F W) (ctx : Context) (agent : AgentSettings) where
  -- The turn after one that was left.
  abbrev pub IsNext : ℕ → ReactState → Type 0
  IsNext n next = (next.turn ≡ suc n) × (suc n ≤ agent.max_iterations)

  abbrev pub HasTurn : ℕ → ReactState → Type 0
  HasTurn n state = state.turn ≡ n

  agent_node-IsTotal :
      (tools : List Value) (state : ReactState)
      → IsTotal (agent_node services ctx agent tools state)
  unfolding agent_node
  agent_node-IsTotal tools state = elim (Bool-cases (ltb agent.max_iterations (suc state.turn))) [
    | inl h ↦ rw h (lift-IsTotal (stops _) refl)
    | inr h ↦ rw h (
        bind-IsTotal _ _ (llm_step-IsTotal services ctx _ _ _ _ _ _)
          (λ result. lift-IsTotal (done _) refl))
  ]

  pub agent_node-IsNext :
      (tools : List Value) (state : ReactState)
      → Gives (IsNext state.turn) (agent_node services ctx agent tools state)
  unfolding agent_node
  agent_node-IsNext tools state s next e =
      elim (Bool-cases (ltb agent.max_iterations (suc state.turn))) [
        | inl h ↦ absurd (not_done _ s next (rw h at e))
        | inr h ↦
            bind-Gives (IsNext state.turn) _ _
              (λ result. done-Gives (IsNext state.turn) _ (refl, ground arith)) s next (rw h at e)
      ]

  pub tools_node-HasTurn :
      (state : ReactState) → Gives (HasTurn state.turn) (tools_node services ctx agent state)
  unfolding tools_node
  tools_node-HasTurn state = bind-Gives _ _ _ (λ answers. done-Gives _ _ refl)

  -- What the agent leaves for the tools.
  abbrev IsLeft : ℕ → ReactState → Type 0
  IsLeft n next = IsNext n next × All IsCall (calls_of services ctx agent next.messages)

  -- The recursion limit is never met: a run from any turn on has two nodes for each turn left, and one
  -- more, which notices that there is none.
  pub run_graph-IsTotal :
      (limit : ℕ) (tools : List Value) (state : ReactState)
      → HasCalls services ctx agent
      → (agent.max_iterations - state.turn) * 2 + 1 ≤ limit
      → IsTotal (run_graph services ctx agent limit tools state)
  unfolding run_graph
  run_graph-IsTotal zero tools state c h = absurd (omega arith)
  run_graph-IsTotal (suc zero) tools state c h =
      bind_given-IsTotal (IsNext state.turn) _ _ (agent_node-IsTotal tools state)
        (agent_node-IsNext tools state) (λ next t. absurd (omega (arith, t.1)))
  run_graph-IsTotal (suc (suc limit)) tools state c h =
      bind_given-IsTotal (IsLeft state.turn) _ _ (agent_node-IsTotal tools state)
        (λ s next e. (
          agent_node-IsNext tools state s next e,
          agent_node-Gives services ctx agent tools state c s next e,
        ))
        (λ next t. if-IsTotal next.o_done _ _ (lift-IsTotal (done next) refl) (
          bind_given-IsTotal (HasTurn next.turn) _ _
            (tools_node-IsTotal services ctx agent next t.1) (tools_node-HasTurn next)
            (λ answered u.
              run_graph-IsTotal limit tools answered c (omega (arith, t.0.0, t.0.1, u)))))
