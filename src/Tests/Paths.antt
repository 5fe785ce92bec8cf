-- ===== src/Tests/Paths.antt =====
-- paths/: pipelines, plans and agents at concrete workflows.
use agent_roi_console.Common.{
  ℕ, suc, ◌-◌, ◌≤◌, ◌≡◌, refl, subst, sym, ◌∙◌, arith, Bool, true, false, List, [], ◌∷◌, length,
  String, none, some, All, str_eq, if◌then◌else◌,
}
use agent_roi_console.Json.{Value, Items, Fields, get}
use agent_roi_console.Float.Scaled.{ℤ, pos, scaled}
use agent_roi_console.Workflows.{AgentSettings}
use agent_roi_console.Paths.{
  done, crashes, Services, Context, Answer, LlmResult, LlmCallError, PathResult, literal,
  placeholder, empty_trail, ◌>>=◌, lift,
}
use agent_roi_console.Paths.Total.{is_crash}
use agent_roi_console.Paths.Planner.{validate_plan}
use agent_roi_console.Paths.Planner.Outputs.{value_refs}
use agent_roi_console.Paths.Planner.Graph.{Prompts, execute_all, recursion_limit}
use agent_roi_console.Paths.Planner.Runs.{IsShown, validated-IsTotal}
use agent_roi_console.Paths.React
use agent_roi_console.Paths.React.{function_of}
use agent_roi_console.Workflows.Transforms.{is_true}
use agent_roi_console.Paths.React.Replies.{IsCall, HasCalls}
use agent_roi_console.Paths.React.Calls.{run_ends}

-- A gateway that always asks for a tool, which the agent may not call.
abbrev asks : LlmResult ℤ
asks = record {
  content = none;
  tool_calls = Value.dict (Fields.field "id" (Value.text "c1") Fields.empty) ∷ [];
  model = "haiku";
  cost_usd = pos 1;
  input_tokens = 10;
  output_tokens = 2;
  cache = "miss";
  fallback_depth = 0;
}

abbrev is_object_with_fields : Value → Bool
is_object_with_fields (Value.dict (Fields.field k v d)) = true
is_object_with_fields _ = false

-- The one placeholder that it knows is `{{s1}}`, which stands in every object that is not empty.
abbrev services : Services ℤ ℕ
services = record {
  chat = λ c w. (Answer.returns asks, suc w);
  call_tool = λ name args run step w. (Answer.raises "down", suc w);
  describe_tools = λ names w. (some "tools", w);
  openai_tools = λ names w. (some [], w);
  dumps = λ v. if is_object_with_fields v then "{{s1}}" else "{}";
  loads = λ s. some (Value.dict Fields.empty);
  unfence = λ s. s;
  pieces = λ s. if str_eq s "{{s1}}" then placeholder "s1" "" ∷ [] else literal s ∷ [];
  whole = λ s. none;
  is_step_id = λ s. true;
  to_str = λ v. "";
}

abbrev ctx : Context
ctx = record {
  workflow = "w";
  tool_list = "crm.log" ∷ [];
  run = "run-1";
  model_config = "auto";
  cache_on = false;
}

abbrev agent : AgentSettings
agent = record {
  planner_step_class = "planning";
  executor_step_class = "write";
  react_step_class = "agent_tool_use";
  max_iterations = 2;
  instruction_template = "Do it.";
}

abbrev prompts : Prompts
prompts = record { planner_system = "plan"; executor_system = "execute" }

abbrev step_object : String → Fields → Value
step_object id rest = Value.dict (Fields.field "id" (Value.text id) rest)

abbrev log_step : Fields
log_step =
    Fields.field "action" (Value.text "tool")
      (Fields.field "tool" (Value.text "crm.log") Fields.empty)

abbrev plan_of : Items → Value
plan_of steps = Value.dict (Fields.field "steps" (Value.list steps) Fields.empty)

abbrev note_step : Fields
note_step = Fields.field "action" (Value.text "tool") (
    Fields.field "tool" (Value.text "crm.log") (
      Fields.field "args" (Value.dict (Fields.field "note" (Value.text "{{s1}}") Fields.empty))
        Fields.empty))

-- The second step passes the output of the first one on.
abbrev two_steps : Value
two_steps =
    plan_of
      (Items.cons (step_object "s1" log_step) (Items.cons (step_object "s2" note_step) Items.nil))

abbrev steps : List (String × Fields)
steps =
    ("s1", Fields.field "id" (Value.text "s1") log_step)
    ∷ ("s2", Fields.field "id" (Value.text "s2") note_step)
    ∷ []

plan_run : validate_plan services ctx.tool_list two_steps ≡ done steps
unfolding validate_plan get
plan_run = refl

steps-IsShown : All (IsShown services) steps
unfolding value_refs get
steps-IsShown = (λ seen h. refl, (λ seen h. h, tt))

-- A plan whose inputs are `null` meets a TypeError.
null_inputs_run :
    validate_plan services [] (
      plan_of (
        Items.cons
          (step_object "s1" (
            Fields.field "action" (Value.text "generate") (
              Fields.field "instruction"
                (Value.text "write")
                (Fields.field "inputs" Value.null Fields.empty))))
          Items.nil))
    ≡ crashes
unfolding validate_plan get
null_inputs_run = refl

validated-IsTotal_example :
    is_crash
      (execute_all services ctx agent prompts
        (recursion_limit - 1)
        steps
        Fields.empty
        (empty_trail 0)).0
    ≡ false
validated-IsTotal_example =
    validated-IsTotal services ctx agent prompts ctx.tool_list two_steps steps plan_run
      steps-IsShown (empty_trail 0)

-- The calls of the gateway have no function; the code takes an empty one.
asks-IsCall : IsCall (Value.dict (Fields.field "id" (Value.text "c1") Fields.empty))
unfolding function_of get
asks-IsCall = record {
  function = Fields.empty;
  has_function = refl;
  has_name = refl;
  has_arguments = refl;
}

returns_injective :
    (a b : LlmResult ℤ) (p : Answer LlmCallError (LlmResult ℤ))
    → p ≡ Answer.returns a
    → p ≡ Answer.returns b
    → a ≡ b
returns_injective a b p e f = ground (arith, sym e ∙ f)

asks-HasCalls : HasCalls services ctx agent
asks-HasCalls c world r e =
    subst (λ q. All IsCall q.tool_calls) (returns_injective asks r (Answer.returns asks) refl e)
      (asks-IsCall, tt)

run_ends_example :
    (result : PathResult ℤ) × ((React.run services ctx agent "act" "Do it." 0).0 ≡ some result)
    × (length result.results ≤ 2)
run_ends_example = run_ends services ctx agent "act" "Do it." 0 [] asks-HasCalls refl

-- A call whose arguments are an object, and no text, meets a TypeError.
object_arguments_run :
    (React.run_calls services ctx agent 1 0
      (Value.dict (
          Fields.field "function"
            (Value.dict (
              Fields.field "arguments"
                (Value.dict (Fields.field "note" (Value.text "call") Fields.empty))
                Fields.empty))
            Fields.empty)
        ∷ [])
      (empty_trail 0)).0
    ≡ crashes
unfolding React.run_calls React.call_content React.function_of ◌>>=◌ lift get is_true
object_arguments_run = refl
