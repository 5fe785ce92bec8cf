-- ===== src/Paths.antt =====
-- paths/base.py: one run of an execution path: its context, the traces that it leaves, and the steps
-- that call the gateway and the tools. The gateway's client is the protocol LlmClient of
-- runner/llm.py and the tools are those of an MCP client; both act on a world that a run passes
-- along. Latencies and log lines are left out.
pub mod Output
pub mod Traces
pub mod Total
pub mod Asks
pub mod Pipeline
pub mod Planner
pub mod React
use agent_roi_console.Common.{
  ℕ, suc, ◌+◌, Bool, true, false, List, [], ◌∷◌, ◌++◌, String, Option, none, some, append_text,
  join, size, leb, str_eq, if◌then◌else◌,
}
use agent_roi_console.Common.Text.{replace_first_dunder, take_text}
use agent_roi_console.Workflows.{StepType}
use agent_roi_console.Json.{Value, Fields, get}
use agent_roi_console.Float.{Float, float, ◌⊕◌}

abbrev pub max_tool_result_chars : ℕ
max_tool_result_chars = 6000

-- PathError
pub record PathError : Type 0 where
  pub reason : String
  pub message : String

-- How a piece of a path ends. An exception that is no PathError goes through all of it.
pub data Result (A : Type 0) : Type 0 where
  done : A → Result A
  stops : PathError → Result A
  crashes : Result A

pub data StepStatus : Type 0 where
  completed failed : StepStatus

-- The `detail` of a trace, by what the code puts into it.
pub data Detail (F : Type 0) : Type 0 where
  nothing : Detail F
  error : String → Detail F
  call : String → F → ℕ → ℕ → String → ℕ → Detail F
  replay : Value → Detail F

pub record StepTrace (F : Type 0) : Type 0 where
  pub step_id : String
  pub kind : StepType
  pub name : String
  pub status : StepStatus
  pub detail : Detail F

-- LlmResult of runner/llm.py, as far as a path or the runner reads it
pub record LlmResult (F : Type 0) : Type 0 where
  pub content : Option String
  pub tool_calls : List Value
  pub model : String
  pub cost_usd : F
  pub input_tokens : ℕ
  pub output_tokens : ℕ
  pub cache : String
  pub fallback_depth : ℕ

-- LlmCallError
pub record LlmCallError : Type 0 where
  pub code : String
  pub call_message : String

-- CallMeta, with the arguments of `chat`
pub record Chat : Type 0 where
  pub chat_model : String
  pub messages : List Value
  pub workflow_id : String
  pub run_id : String
  pub chat_step_id : String
  pub step_class : String
  pub o_cache : Bool
  pub max_tokens : ℕ
  pub tools : Option (List Value)
  pub o_json : Bool

pub data Answer (E A : Type 0) : Type 0 where
  returns : A → Answer E A
  raises : E → Answer E A

-- A part of a text that no placeholder is in, or a placeholder, by its step and its path.
pub data Piece : Type 0 where
  literal : String → Piece
  placeholder : String → String → Piece

-- What a path calls: LlmClient, McpToolbox, the texts of `json`, and
-- regular expressions of `re`.
pub record Services (F W : Type 0) : Type 0 where
  pub chat : Chat → W → Answer LlmCallError (LlmResult F) × W
  -- the tool's name, its arguments, the run and the step
  pub call_tool : String → Fields → String → String → W → Answer String Fields × W
  -- `list_tools` and the text that `describe_tools` makes of the tools with the names, `none` for the
  -- KeyError of one that no server has
  pub describe_tools : List String → W → Option String × W
  -- `none` for the ToolCallError of a name that no server has
  pub openai_tools : List String → W → Option (List Value) × W
  -- `json.dumps(v, default=str)`
  pub dumps : Value → String
  -- `none` for a JSONDecodeError
  pub loads : String → Option Value
  -- `CODE_FENCE_RE.sub("", text)`
  pub unfence : String → String
  -- `PLACEHOLDER_RE`: the pieces that it cuts a text into, and the one that is a whole text
  pub pieces : String → List Piece
  pub whole : String → Option (String × String)
  -- `re.fullmatch(r"s\d+", text)`
  pub is_step_id : String → Bool
  -- `str(v)` of a value that is no text
  pub to_str : Value → String

-- The fixed part of PathContext, with what a path reads of its workflow.
pub record Context : Type 0 where
  pub workflow : String
  pub tool_list : List String
  pub run : String
  pub model_config : String
  pub cache_on : Bool

-- The part of PathContext that a run adds to, and the world.
pub record Trail (F W : Type 0) : Type 0 where
  pub traces : List (StepTrace F)
  pub llm_results : List (LlmResult F)
  pub world : W

abbrev pub Step : Type 0 → Type 0 → Type 0 → Type 0
Step F W A = Trail F W → Result A × Trail F W

module _ {F W A B : Type 0} where
  unfoldable pub after : Result A × Trail F W → (A → Step F W B) → Result B × Trail F W
  after (done a, s) f = f a s
  after (stops e, s) f = (stops e, s)
  after (crashes, s) f = (crashes, s)

  infixl 5 ◌>>=◌
  unfoldable pub ◌>>=◌ : Step F W A → (A → Step F W B) → Step F W B
  unfolding after
  (m >>= f) s = after (m s) f

-- A result that leaves the run alone.
module _ {F W A : Type 0} where
  unfoldable pub lift : Result A → Step F W A
  lift r s = (r, s)

abbrev pub chat_of : Context → String → String → List Value → ℕ → Option (List Value) → Bool → Chat
chat_of ctx step_id step_class messages max_tokens tools o_json = record {
  chat_model = ctx.model_config;
  messages = messages;
  workflow_id = ctx.workflow;
  run_id = ctx.run;
  chat_step_id = step_id;
  step_class = step_class;
  o_cache = ctx.cache_on;
  max_tokens = max_tokens;
  tools = tools;
  o_json = o_json;
}

module _ {F : Type 0} where
  abbrev pub llm_trace : Chat → StepStatus → Detail F → StepTrace F
  llm_trace c status detail = record {
    step_id = c.chat_step_id;
    kind = StepType.llm;
    name = c.step_class;
    status = status;
    detail = detail;
  }

  abbrev pub tool_trace : String → String → StepStatus → Detail F → StepTrace F
  tool_trace step_id name status detail = record {
    step_id = step_id;
    kind = StepType.tool;
    name = name;
    status = status;
    detail = detail;
  }

abbrev pub is_listed : String → List String → Bool
is_listed name [] = false
is_listed name (t ∷ ts) = if str_eq t name then true else is_listed name ts

abbrev pub or_false : Option Value → Value
or_false none = Value.boolean false
or_false (some v) = v

module _ {F W : Type 0} where
  abbrev pub with_trace : StepTrace F → Trail F W → Trail F W
  with_trace t s = record s { traces = s.traces ++ t ∷ [] }

  answered : Chat → Answer LlmCallError (LlmResult F) → Step F W (LlmResult F)
  answered c (Answer.returns r) s = (
    done r,
    with_trace
        (llm_trace c StepStatus.completed
          (Detail.call r.model r.cost_usd r.input_tokens r.output_tokens r.cache r.fallback_depth))
        (record s { llm_results = s.llm_results ++ r ∷ [] }),
  )
  answered c (Answer.raises e) s = (
    stops (record { reason = e.code; message = e.call_message }),
    with_trace (llm_trace c StepStatus.failed (Detail.error e.code)) s,
  )

  unfoldable pub llm_step :
      Services F W
      → Context
      → String
      → String
      → List Value
      → ℕ
      → Option (List Value)
      → Bool
      → Step F W (LlmResult F)
  unfolding answered
  llm_step services ctx step_id step_class messages max_tokens tools o_json s =
      let c = chat_of ctx step_id step_class messages max_tokens tools o_json in
      let (answer, world) = services.chat c s.world in
      answered c answer (record s { world = world })

  -- The two ends of a call of a tool.
  tool_answered : String → String → Answer String Fields → Step F W Fields
  tool_answered step_id name (Answer.returns result) s = (
    done result,
    with_trace
        (tool_trace step_id name StepStatus.completed
          (Detail.replay (or_false (get "idempotent_replay" result))))
        s,
  )
  tool_answered step_id name (Answer.raises message) s = (
    stops (record { reason = "tool_error"; message = message }),
    with_trace (tool_trace step_id name StepStatus.failed (Detail.error (take_text 500 message))) s,
  )

  not_allowed : Context → String → String → Step F W Fields
  not_allowed ctx step_id name s = (
    stops (record {
      reason = "tool_not_allowed";
      message = join (name ∷ " is not a tool of " ∷ ctx.workflow ∷ []);
    }),
    with_trace (tool_trace step_id name StepStatus.failed (Detail.error "tool not allowed")) s,
  )

  unfoldable pub tool_step : Services F W → Context → String → String → Fields → Step F W Fields
  unfolding tool_answered not_allowed
  tool_step services ctx step_id called args s =
      let name = replace_first_dunder called in
      if is_listed name ctx.tool_list
      then (let (answer, world) = services.call_tool name args ctx.run step_id s.world in
          tool_answered step_id name answer (record s { world = world }))
      else not_allowed ctx step_id name s

  unfoldable pub truncate_json : Services F W → Value → String
  truncate_json services v =
      let text = services.dumps v in
      if leb (size text) max_tool_result_chars
      then text
      else append_text (take_text max_tool_result_chars text) " ...[truncated]"

module _ {F W : Type 0} where
  abbrev pub empty_trail : W → Trail F W
  empty_trail world = record { traces = []; llm_results = []; world = world }

-- PathResult, which `finish` builds; a crash has none.
pub record PathResult (F : Type 0) : Type 0 where
  pub path_status : StepStatus
  pub failure_reason : Option String
  pub path_traces : List (StepTrace F)
  pub results : List (LlmResult F)

module _ {F W A : Type 0} where
  -- `finish`, of what the graph of a path ends with
  unfoldable pub finish : Result A × Trail F W → Option (PathResult F)
  finish (done a, s) = some (record {
    path_status = StepStatus.completed;
    failure_reason = none;
    path_traces = s.traces;
    results = s.llm_results;
  })
  finish (stops e, s) = some (record {
    path_status = StepStatus.failed;
    failure_reason = some e.reason;
    path_traces = s.traces;
    results = s.llm_results;
  })
  finish (crashes, s) = none

module _ {F : Type 0} ⦃fl : Float F⦄ where
  sum_cost : List (LlmResult F) → F → F
  sum_cost [] acc = acc
  sum_cost (r ∷ rs) acc = sum_cost rs (acc ⊕ r.cost_usd)

  unfoldable pub llm_cost_usd : PathResult F → F
  unfolding sum_cost
  llm_cost_usd p = sum_cost p.results (float 0)

module _ {F : Type 0} where
  abbrev sum_of : (LlmResult F → ℕ) → List (LlmResult F) → ℕ
  sum_of count [] = 0
  sum_of count (r ∷ rs) = count r + sum_of count rs

  abbrev pub input_tokens_of : PathResult F → ℕ
  input_tokens_of p = sum_of (λ r. r.input_tokens) p.results

  abbrev pub output_tokens_of : PathResult F → ℕ
  output_tokens_of p = sum_of (λ r. r.output_tokens) p.results
