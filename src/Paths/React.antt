-- ===== src/Paths/React.antt =====
-- paths/react.py: the agent that calls tools until it is done or out of turns. Its messages are values
-- of `json`. A part of a tool call that has no text is an exception, where the code reads it as one.
-- The answer to invalid arguments is without the text of the exception.
pub mod Replies
pub mod Turns
pub mod Accounts
pub mod Calls
use agent_roi_console.Common.{
  ℕ, zero, suc, ◌+◌, ◌*◌, Bool, true, false, not, List, [], ◌∷◌, ◌++◌, String, Option, none, some,
  join, append_text, str_eq, ltb, if◌then◌else◌,
}
use agent_roi_console.Common.Text.{take_text, decimal}
use agent_roi_console.Json.{Value, Items, Fields, get, elements}
use agent_roi_console.Workflows.{AgentSettings, or_empty}
use agent_roi_console.Workflows.Transforms.{items_of, is_true}
use agent_roi_console.Paths.{
  PathError, Result, done, stops, crashes, Services, Context, Trail, Step, PathResult, LlmResult,
  empty_trail, finish, ◌>>=◌, lift, llm_step, tool_step, truncate_json,
}
use agent_roi_console.Paths.Pipeline.{message_of}

abbrev pub agent_max_tokens : ℕ
agent_max_tokens = 1000

-- ReactState, without its error, which ends the graph.
pub record ReactState : Type 0 where
  pub messages : List Value
  pub turn : ℕ
  pub o_done : Bool

abbrev pub initial_state : String → String → ReactState
initial_state system instruction = record {
  messages =
      message_of "system" (Value.text system) ∷ message_of "user" (Value.text instruction) ∷ [];
  turn = 0;
  o_done = false;
}

abbrev pub no_calls : List Value → Bool
no_calls [] = true
no_calls (c ∷ cs) = false

-- The message of the assistant, with its tool calls if it has any.
abbrev pub assistant_message : Option String → List Value → Value
assistant_message content calls = Value.dict (
    Fields.field "role" (Value.text "assistant") (
      Fields.field "content" (elim content [ none ↦ Value.null | some s ↦ Value.text s ])
        (if no_calls calls
          then Fields.empty
          else Fields.field "tool_calls" (Value.list (items_of calls)) Fields.empty)))

abbrev pub tool_message : Value → Value → Value
tool_message call_id content = Value.dict (
    Fields.field "role" (Value.text "tool")
      (Fields.field "tool_call_id" call_id (Fields.field "content" content Fields.empty)))

-- `call.get(k, default)` of a call, which is an object
abbrev pub member : String → Value → Value → Value
member k default (Value.dict d) = elim (get k d) [ none ↦ default | some v ↦ v ]
member k default _ = default

-- `function`, of a call; else an AttributeError
abbrev as_object : Option Value → Result Fields
as_object none = done Fields.empty
as_object (some (Value.dict d)) = done d
as_object (some _) = crashes

unfoldable pub function_of : Value → Result Fields
function_of (Value.dict call) = as_object (get "function" call)
function_of _ = crashes

-- `function.get("name", "")`, of which `tool_step` replaces a part
abbrev pub name_text : Option Value → Result String
name_text none = done ""
name_text (some (Value.text s)) = done s
name_text (some _) = crashes

-- `function.get("arguments") or "{}"`, which `json.loads` takes; else a TypeError
abbrev pub arguments_text : Option Value → Result String
arguments_text none = done "{}"
arguments_text (some (Value.text s)) = done (if str_eq s "" then "{}" else s)
arguments_text (some v) = if is_true v then crashes else done "{}"

abbrev error_object : String → Value
error_object message = Value.dict (Fields.field "error" (Value.text message) Fields.empty)

module _ {F W : Type 0} (services : Services F W) (ctx : Context) (agent : AgentSettings) where
  -- The node `agent`: `none` is past the last turn.
  unfoldable pub agent_node : List Value → ReactState → Step F W ReactState
  agent_node tools state =
      let turn = suc state.turn in
      if ltb agent.max_iterations turn
      then lift (
          stops (record {
            reason = "max_iterations";
            message = join ("no finish within " ∷ decimal agent.max_iterations ∷ " turns" ∷ []);
          }))
      else (llm_step services ctx (append_text "react_turn_" (decimal turn)) agent.react_step_class
            state.messages agent_max_tokens (some tools) false
          >>= λ result. lift (
              done (record {
                messages =
                    state.messages ++ assistant_message result.content result.tool_calls ∷ [];
                turn = turn;
                o_done = no_calls result.tool_calls;
              })))

  -- The arguments of a call, `none` for those that are no JSON object.
  abbrev pub call_args : String → Option Fields
  call_args text = elim (services.loads text) [
    | some v ↦ elim v [ Value.dict d ↦ some d | _ ↦ none ]
    | none ↦ none
  ]

  -- What the agent reads of a call that was made: a PathError goes back to it.
  answer_of : Result Fields × Trail F W → Result Value × Trail F W
  answer_of (done output, s) = (done (Value.text (truncate_json services (Value.dict output))), s)
  answer_of (stops e, s) =
      (done (Value.text (services.dumps (error_object (take_text 1000 e.message)))), s)
  answer_of (crashes, s) = (crashes, s)

  called : String → Fields → Option Fields → Step F W Value
  unfolding get answer_of
  called step_id function none =
      lift (done (Value.text (services.dumps (error_object "invalid arguments"))))
  called step_id function (some args) = lift (name_text (get "name" function)) >>= λ name s.
      answer_of (tool_step services ctx step_id name args s)

  unfoldable pub call_content : String → Value → Step F W Value
  unfolding get is_true function_of called
  call_content step_id call = lift (function_of call) >>= λ function.
      lift (arguments_text (get "arguments" function)) >>= λ text.
      called step_id function (call_args text)

  -- The calls of a turn, from the given index on.
  unfoldable pub run_calls : ℕ → ℕ → List Value → Step F W (List Value)
  unfolding call_content
  run_calls turn index [] = lift (done [])
  run_calls turn index (call ∷ calls) =
      let step_id = join ("react_turn_" ∷ decimal turn ∷ "_call_" ∷ decimal index ∷ []) in
      call_content step_id call >>= λ content. run_calls turn (suc index) calls >>= λ rest.
      lift (done (tool_message (member "id" (Value.text "") call) content ∷ rest))

  -- The tool calls of the last message.
  abbrev pub calls_of : List Value → List Value
  calls_of [] = []
  calls_of (m ∷ []) = elim (member "tool_calls" (Value.list Items.nil) m) [
    | Value.list vs ↦ elements vs
    | _ ↦ []
  ]
  calls_of (m ∷ ms) = calls_of ms

  -- The node `tools`.
  unfoldable pub tools_node : ReactState → Step F W ReactState
  unfolding run_calls
  tools_node state = run_calls state.turn 0 (calls_of state.messages) >>= λ answers.
      lift (done (record state { messages = state.messages ++ answers }))

  -- The graph, on what is left of the recursion limit of nodes, from the node `agent` on.
  unfoldable pub run_graph : ℕ → List Value → ReactState → Step F W ReactState
  unfolding agent_node tools_node
  run_graph zero tools state = lift crashes
  run_graph (suc zero) tools state =
      agent_node tools state >>= λ next. lift (if next.o_done then done next else crashes)
  run_graph (suc (suc limit)) tools state = agent_node tools state >>= λ next.
      let go = tools_node next >>= λ answered. run_graph limit tools answered in
      if next.o_done then lift (done next) else go

  abbrev pub recursion_limit : ℕ
  recursion_limit = agent.max_iterations * 2 + 5

  -- The agent with the definitions of its tools; a ToolCallError of `openai_tools` goes through.
  run_with : Option (List Value) → String → String → W → Option (PathResult F) × W
  unfolding run_graph finish
  run_with none system instruction world = (none, world)
  run_with (some tools) system instruction world =
      let ended =
        run_graph recursion_limit tools (initial_state system instruction) (empty_trail world) in
      (finish ended, ended.1.world)

  -- `ReactPath.run`, given the prompt of the system
  unfoldable pub run : String → String → W → Option (PathResult F) × W
  unfolding run_with
  run system instruction world =
      let (tools, world') = services.openai_tools ctx.tool_list world in
      run_with tools system instruction world'
