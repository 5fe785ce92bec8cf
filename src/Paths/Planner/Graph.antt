-- ===== src/Paths/Planner/Graph.antt =====
-- paths/planner_executor.py: the graph that asks for a plan and executes its steps one by one. A run
-- of a node uses up one of the library's recursion limit, past which it raises.
use agent_roi_console.Common.{
  ℕ, zero, suc, ◌+◌, ◌-◌, ◌*◌, Bool, true, List, [], ◌∷◌, length, String, Option, none, some, join,
  append_text, leb, if◌then◌else◌,
}
use agent_roi_console.Common.Text.{strip}
use agent_roi_console.Json.{Value, Fields, keys, with_field}
use agent_roi_console.Workflows.{AgentSettings, or_empty}
use agent_roi_console.Paths.{
  Result, done, stops, crashes, Services, Context, Step, PathResult, empty_trail, finish, ◌>>=◌,
  lift, llm_step, tool_step,
}
use agent_roi_console.Paths.Output.{parse_json_output}
use agent_roi_console.Paths.Pipeline.{message_of}
use agent_roi_console.Paths.Planner.{
  max_plan_steps, get_or, has_value, text_at, invalid_plan, validate_plan,
}
use agent_roi_console.Paths.Planner.Execute.{resolve_placeholders, input_text}

abbrev pub planner_max_tokens : ℕ
planner_max_tokens = 1200

abbrev pub generate_max_tokens : ℕ
generate_max_tokens = 600

-- The two system prompts.
pub record Prompts : Type 0 where
  pub planner_system : String
  pub executor_system : String

abbrev pub recursion_limit : ℕ
recursion_limit = max_plan_steps * 2 + 5

abbrev pub step_at : ℕ → List (String × Fields) → Result (String × Fields)
step_at n [] = crashes
step_at zero (step ∷ plan) = done step
step_at (suc n) (step ∷ plan) = step_at n plan

module _ {F W : Type 0} (services : Services F W) (ctx : Context) where
  -- The texts of the tools of the workflow, which a server may lack.
  unfoldable pub list_tools : Step F W String
  list_tools s =
      let (text, world) = services.describe_tools ctx.tool_list s.world in
      (elim text [ none ↦ crashes | some t ↦ done t ], record s { world = world })

-- The arguments that `resolve_placeholders` makes of a dict are a dict.
abbrev pub as_fields : Value → Result Fields
as_fields (Value.dict d) = done d
as_fields _ = crashes

abbrev user_prompt : String → String → Bool → String
user_prompt instruction inputs o_json =
    let prompt = strip (join ("Instruction: " ∷ instruction ∷ "\n\n" ∷ inputs ∷ [])) in
    if o_json then append_text prompt "\n\nRespond with a JSON object only." else prompt

module _ {F W : Type 0} (services : Services F W) (ctx : Context) (agent : AgentSettings)
    (prompts : Prompts) where
  -- What a generation step makes of the model's answer.
  unfoldable pub generated : String → Bool → Option String → Result Value
  unfolding strip parse_json_output
  generated step_id o_json content =
      if o_json
      then elim (parse_json_output services content) [
        | none ↦
            stops
              (record { reason = "invalid_json"; message = join (step_id ∷ ": " ∷ "no JSON" ∷ []) })
        | some v ↦ done v
      ]
      else done (Value.text (strip (or_empty content)))

  unfoldable pub execute_tool : String → Fields → Fields → Step F W Value
  unfolding resolve_placeholders
  execute_tool step_id step outputs = do
    v ← lift (resolve_placeholders services outputs (get_or (Value.dict Fields.empty) "args" step))
    args ← lift (as_fields v)
    result ← tool_step services ctx step_id (or_empty (text_at "tool" step)) args
    lift (done (Value.dict result))

  unfoldable pub execute_generate : String → Fields → Fields → Step F W Value
  unfolding input_text generated
  execute_generate step_id step outputs = do
    inputs ← lift (input_text services outputs step)
    let o_json = has_value "output" "json" step
    result ←
        llm_step services ctx step_id agent.executor_step_class
          (message_of "system" (Value.text prompts.executor_system)
            ∷ message_of "user"
                (Value.text (user_prompt (or_empty (text_at "instruction" step)) inputs o_json))
            ∷ [])
          generate_max_tokens none o_json
    lift (generated step_id o_json result.content)

  -- `execute`, of a step and its id
  unfoldable pub execute : String × Fields → Fields → Step F W Value
  unfolding execute_tool execute_generate
  execute step outputs =
      let step_id = append_text "exec_" step.0 in
      if has_value "action" "tool" step.1
      then execute_tool step_id step.1 outputs
      else execute_generate step_id step.1 outputs

  -- `execute_node` as often as `next_edge` says, on what is left of the recursion limit
  unfoldable pub execute_all : ℕ → List (String × Fields) → Fields → Step F W Fields
  unfolding execute keys
  execute_all zero plan outputs =
      lift (if leb (length plan) (length (keys outputs)) then done outputs else crashes)
  execute_all (suc limit) plan outputs =
      let next = lift (step_at (length (keys outputs)) plan) >>= λ step.
      execute step outputs >>= λ output.
      execute_all limit plan (with_field step.0 output outputs) in
      if leb (length plan) (length (keys outputs)) then lift (done outputs) else next

  -- `PlannerExecutorPath.plan`
  unfoldable pub plan : String → Step F W (List (String × Fields))
  unfolding parse_json_output validate_plan list_tools
  plan instruction = do
    tools ← list_tools services ctx
    result ←
        llm_step services ctx "plan" agent.planner_step_class
          (message_of "system" (Value.text prompts.planner_system)
            ∷ message_of "user" (
                Value.text (
                  join (
                    "Task:\n" ∷ instruction ∷ "\n\nAvailable tools:\n" ∷ tools
                    ∷ "\n\nWrite the plan." ∷ [])))
            ∷ [])
          planner_max_tokens none true
    lift (elim (parse_json_output services result.content) [
      | none ↦ invalid_plan "no JSON"
      | some v ↦ validate_plan services ctx.tool_list v
    ])

  -- The graph: the node `plan` once, then `execute`.
  unfoldable pub run_graph : String → Step F W Fields
  unfolding plan execute_all
  run_graph instruction =
      plan instruction >>= λ steps. execute_all (recursion_limit - 1) steps Fields.empty

  -- `PlannerExecutorPath.run`
  unfoldable pub run : String → W → Option (PathResult F) × W
  unfolding run_graph finish
  run instruction world =
      let ended = run_graph instruction (empty_trail world) in (finish ended, ended.1.world)
