-- ===== src/Workflows.antt =====
-- workflows/schema.py: the definition of a workflow, the checks of its models, and what the paths
-- read of it. Fields that only the pages show are left out, and so is what pydantic checks itself.
pub mod Rendering
pub mod Transforms
use agent_roi_console.Common.{
  ℕ, Bool, true, false, not, ◌&&◌, List, [], ◌∷◌, ◌++◌, map, String, Option, none, some, keep_if,
  length, str_eq, ◌==◌, text_le, if◌then◌else◌,
}
use agent_roi_console.Common.Sort.{sorted}
use agent_roi_console.Common.Text.{has_text, before}
use agent_roi_console.Json.{Value, Fields}

abbrev pub tool_servers : List String
tool_servers = "slack" ∷ "notion" ∷ "crm" ∷ []

pub data StepType : Type 0 where
  tool llm transform : StepType

pub data Output : Type 0 where
  text json : Output

pub record StepDefinition : Type 0 where
  pub step_id : String
  pub step_type : StepType
  pub tool_of : Option String
  pub step_class : Option String
  pub args : Fields
  pub system_prompt : Option String
  pub user_prompt : Option String
  pub output : Output
  pub max_tokens : ℕ
  pub transform_of : Option String

pub record AgentSettings : Type 0 where
  pub planner_step_class : String
  pub executor_step_class : String
  pub react_step_class : String
  pub max_iterations : ℕ
  pub instruction_template : String

pub record WorkflowDefinition (F : Type 0) : Type 0 where
  pub workflow_id : String
  pub tool_cost_usd_per_task : F
  pub steps : List StepDefinition
  pub agent : AgentSettings
  pub validators : List String

-- `s or ""`
abbrev pub or_empty : Option String → String
or_empty none = ""
or_empty (some s) = s

-- The truth of a text that may be missing.
abbrev pub is_given : Option String → Bool
is_given none = false
is_given (some s) = not (str_eq s "")

abbrev pub is_in : String → List String → Bool
is_in s [] = false
is_in s (t ∷ ts) = if str_eq t s then true else is_in s ts

-- `server`
unfoldable pub server : StepDefinition → String
unfolding before
server step = before 46 (or_empty step.tool_of)

-- `check_type_fields`, where `false` is its ValueError
unfoldable pub check_type_fields : StepDefinition → Bool
unfolding has_text server
check_type_fields step = elim step.step_type [
  | StepType.tool ↦
      is_given step.tool_of
      && has_text "." (or_empty step.tool_of)
      && is_in (server step) tool_servers
  | StepType.llm ↦ is_given step.step_class && is_given step.user_prompt
  | StepType.transform ↦ is_given step.transform_of
]

abbrev pub is_tool : StepDefinition → Bool
is_tool step = elim step.step_type [ StepType.tool ↦ true | _ ↦ false ]

abbrev pub is_llm : StepDefinition → Bool
is_llm step = elim step.step_type [ StepType.llm ↦ true | _ ↦ false ]

unfoldable pub any_step : (StepDefinition → Bool) → List StepDefinition → Bool
any_step test [] = false
any_step test (step ∷ steps) = if test step then true else any_step test steps

-- The members of a list, once each, in the order of their last occurrence: `set`, up to order.
unfoldable pub set_of : List String → List String
set_of [] = []
set_of (s ∷ ss) = let rest = set_of ss in if is_in s rest then rest else s ∷ rest

-- `step.tool not in seen_list`, which holds of `None`
abbrev pub is_new : Option String → List String → Bool
is_new none seen = true
is_new (some t) seen = not (is_in t seen)

unfoldable pub collect_tools : List String → List StepDefinition → List String
collect_tools seen [] = seen
collect_tools seen (step ∷ steps) =
    collect_tools
      (if is_tool step && is_new step.tool_of seen
        then seen ++ or_empty step.tool_of ∷ []
        else seen)
      steps

module _ {F : Type 0} where
  -- `check_steps`
  unfoldable pub check_steps : WorkflowDefinition F → Bool
  unfolding set_of any_step
  check_steps w =
      let ids = map (λ step. step.step_id) w.steps in
      length (set_of ids) == length ids && any_step is_tool w.steps && any_step is_llm w.steps

  -- `tool_list`
  unfoldable pub tool_list : WorkflowDefinition F → List String
  unfolding collect_tools
  tool_list w = collect_tools [] w.steps

  -- `llm_steps`
  unfoldable pub llm_steps : WorkflowDefinition F → List StepDefinition
  llm_steps w = keep_if is_llm w.steps

  -- `step_classes`
  unfoldable pub step_classes : WorkflowDefinition F → List String
  unfolding llm_steps set_of
  step_classes w = sorted text_le (
      set_of (
        map (λ step. or_empty step.step_class) (llm_steps w)
        ++ w.agent.planner_step_class ∷ w.agent.executor_step_class ∷ w.agent.react_step_class
          ∷ []))
