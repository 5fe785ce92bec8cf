-- ===== src/Paths/Planner.antt =====
-- paths/planner_executor.py: a plan that a model writes, its checks, and its placeholders. The texts
-- of errors leave out the values that they show.
pub mod Execute
pub mod Graph
pub mod Outputs
pub mod Checked
pub mod Runs
pub mod Accounts
use agent_roi_console.Common.{
  ℕ, suc, ◌+◌, Bool, true, false, not, ◌&&◌, List, [], ◌∷◌, ◌++◌, map, keep_if, length, String,
  Option, none, some, join, append_text, str_eq, leb, ltb, size, if◌then◌else◌,
}
use agent_roi_console.Common.Text.{characters, split, read_digits, all_digits, strip}
use agent_roi_console.Json.{Value, Items, Fields, get, keys, elements}
use agent_roi_console.Workflows.{is_in}
use agent_roi_console.Paths.{
  PathError, Result, done, stops, crashes, Piece, literal, placeholder, Services,
}

abbrev pub max_plan_steps : ℕ
max_plan_steps = 12

module _ {A B : Type 0} where
  unfoldable pub and_then : Result A → (A → Result B) → Result B
  and_then (done a) f = f a
  and_then (stops e) f = stops e
  and_then crashes f = crashes

module _ {A : Type 0} where
  abbrev pub invalid_plan : String → Result A
  invalid_plan message = stops (record { reason = "invalid_plan"; message = message })

-- `d.get(k, {})`, and `d.get(k, [])`
abbrev pub get_or : Value → String → Fields → Value
get_or default k d = elim (get k d) [ none ↦ default | some v ↦ v ]

-- `d.get(k) == s`
abbrev pub has_value : String → String → Fields → Bool
has_value k s d = elim (get k d) [
  | some v ↦ elim v [ Value.text t ↦ str_eq t s | _ ↦ false ]
  | none ↦ false
]

-- `d.get(k)`, where it is a text
abbrev pub text_at : String → Fields → Option String
text_at k d = elim (get k d) [ some v ↦ elim v [ Value.text t ↦ some t | _ ↦ none ] | none ↦ none ]

-- `isinstance(d.get(k), str)`
abbrev pub has_text_at : String → Fields → Bool
has_text_at k d = elim (text_at k d) [ none ↦ false | some t ↦ true ]

-- `for i in v`, `none` for the TypeError of a value that has no elements
abbrev pub iterate : Value → Option (List Value)
iterate (Value.list vs) = some (elements vs)
iterate (Value.text s) = some (map (λ c. Value.text c) (characters s))
iterate (Value.dict d) = some (map (λ k. Value.text k) (keys d))
iterate _ = none

-- `i in seen_set`, `none` for the TypeError of a value that has no hash
abbrev pub in_set : List String → Value → Option Bool
in_set seen (Value.text s) = some (is_in s seen)
in_set seen (Value.list vs) = none
in_set seen (Value.dict d) = none
in_set seen _ = some false

unfoldable pub or_unknown : Option Bool → Result Bool → Result Bool
unfolding and_then
or_unknown none rest = crashes
or_unknown (some true) rest = rest
or_unknown (some false) rest = and_then rest (λ b. done true)

-- Whether an element is unknown; all of them are looked at.
unfoldable pub any_unknown : List String → List Value → Result Bool
unfolding or_unknown
any_unknown seen [] = done false
any_unknown seen (v ∷ vs) = or_unknown (in_set seen v) (any_unknown seen vs)

unfoldable pub check_elements : List String → Option (List Value) → Result Unit
unfolding any_unknown and_then
check_elements seen none = crashes
check_elements seen (some vs) =
    and_then (any_unknown seen vs)
      (λ b. if b then invalid_plan "inputs reference later or unknown steps" else done tt)

unfoldable pub check_inputs : List String → Value → Result Unit
unfolding check_elements
check_inputs seen v = check_elements seen (iterate v)

abbrev pub is_object : Value → Bool
is_object v = elim v [ Value.dict d ↦ true | _ ↦ false ]

unfoldable pub check_tool : List String → Fields → Result Unit
check_tool allowed step =
    if elim (text_at "tool" step) [ none ↦ false | some t ↦ is_in t allowed ]
    then (if is_object (get_or (Value.dict Fields.empty) "args" step)
        then done tt
        else invalid_plan "args must be an object")
    else invalid_plan "the tool is not allowed"

unfoldable pub check_generate : List String → Fields → Result Unit
unfolding check_inputs
check_generate seen step =
    if has_text_at "instruction" step
    then check_inputs seen (get_or (Value.list Items.nil) "inputs" step)
    else invalid_plan "generate needs an instruction"

unfoldable pub check_action : List String → List String → Fields → Result Unit
unfolding check_tool check_generate
check_action allowed seen step =
    if has_value "action" "tool" step
    then check_tool allowed step
    else if has_value "action" "generate" step
    then check_generate seen step
    else invalid_plan "unknown action"

-- The steps of the placeholders, in the order in which they stand.
abbrev pub refs_of : List Piece → List String
refs_of [] = []
refs_of (literal s ∷ ps) = refs_of ps
refs_of (placeholder ref path ∷ ps) = ref ∷ refs_of ps

abbrev pub all_in : List String → List String → Bool
all_in seen [] = true
all_in seen (r ∷ rs) = if is_in r seen then all_in seen rs else false

module _ {F W : Type 0} (services : Services F W) where
  unfoldable pub check_placeholders : List String → Fields → Result Unit
  check_placeholders seen step =
      if all_in seen
        (refs_of (services.pieces (services.dumps (get_or (Value.dict Fields.empty) "args" step))))
      then done tt
      else invalid_plan "placeholders reference later or unknown steps"

  check_named : List String → List String → Fields → Option String → Result (String × Fields)
  unfolding check_action check_placeholders and_then
  check_named allowed seen step none = invalid_plan "step without id"
  check_named allowed seen step (some id) =
      if not (is_in id seen) && services.is_step_id id
      then and_then (check_action allowed seen step)
          (λ u. and_then (check_placeholders seen step) (λ v. done (id, step)))
      else invalid_plan "bad or duplicate step id"

  -- One step of a plan, with its id, which joins those that the next may name.
  unfoldable pub check_step : List String → List String → Value → Result (String × Fields)
  unfolding check_named
  check_step allowed seen (Value.dict step) = check_named allowed seen step (text_at "id" step)
  check_step allowed seen _ = invalid_plan "step without id"

  -- The steps of a plan, by their ids.
  unfoldable pub check_steps :
      List String → List String → List Value → Result (List (String × Fields))
  unfolding check_step and_then
  check_steps allowed seen [] = done []
  check_steps allowed seen (v ∷ vs) =
      and_then (check_step allowed seen v)
        (λ step. and_then (check_steps allowed (step.0 ∷ seen) vs) (λ rest. done (step ∷ rest)))

  check_count : List String → List Value → Result (List (String × Fields))
  unfolding check_steps
  check_count allowed [] = invalid_plan "plan must be an object with a non-empty steps list"
  check_count allowed (v ∷ vs) =
      if leb (length (v ∷ vs)) max_plan_steps
      then check_steps allowed [] (v ∷ vs)
      else invalid_plan "plan has too many steps"

  abbrev step_list : Option Value → List Value
  step_list none = []
  step_list (some (Value.list vs)) = elements vs
  step_list (some _) = []

  unfoldable pub validate_plan : List String → Value → Result (List (String × Fields))
  unfolding check_count
  validate_plan allowed (Value.dict plan) = check_count allowed (step_list (get "steps" plan))
  validate_plan allowed _ = invalid_plan "plan must be an object with a non-empty steps list"
