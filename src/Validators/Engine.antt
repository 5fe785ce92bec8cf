-- ===== src/Validators/Engine.antt =====
-- validators/engine.py: the validators of a task, each with its rendered arguments.
use agent_roi_console.Common.{
  Bool, true, false, ◌&&◌, List, [], ◌∷◌, map, String, Option, none, some, text_le, str_eq,
  if◌then◌else◌,
}
use agent_roi_console.Common.Dict.{lookup}
use agent_roi_console.Common.Sort.{sorted}
use agent_roi_console.Json.{Value, Fields}
use agent_roi_console.Workflows.{is_in}
use agent_roi_console.Workflows.Rendering.{
  Templates, Rendered, rendered, render_error, escapes, bind, render_value, render_fields,
}
use agent_roi_console.Float.{Float}
use agent_roi_console.Validators.{EndState, ValidatorResult, Texts}
use agent_roi_console.Validators.Binding.{
  Check, posted, mentions, excludes, states, page_created, property_equals, todos_mention,
  activity_logged, validator_names, validators_dict, ◌>>=◌,
}
use agent_roi_console.Validators.Checks.{
  result_of, slack_message_posted, message_mentions_terms, message_excludes_terms,
  message_mentions_amount, notion_page_created, notion_property_equals, notion_todos_mention,
  crm_activity_logged,
}

pub record ValidatorSpec : Type 0 where
  pub spec_name : String
  pub args : Fields

abbrev all_known : List String → Bool
all_known [] = true
all_known (n ∷ ns) = if is_in n validator_names then all_known ns else false

abbrev pub same_texts : List String → List String → Bool
same_texts [] [] = true
same_texts (s ∷ ss) (t ∷ ts) = if str_eq s t then same_texts ss ts else false
same_texts _ _ = false

abbrev pub spec_names : List ValidatorSpec → List String
spec_names specs = map (λ s. s.spec_name) specs

-- `check_task_validators`, where `false` is its ValueError
unfoldable pub check_task_validators : List String → List ValidatorSpec → Bool
check_task_validators declared specs =
    same_texts (sorted text_le (spec_names specs)) (sorted text_le declared)
    && all_known (spec_names specs)

abbrev pub or_failed : String → Option ValidatorResult → ValidatorResult
or_failed name none = result_of name false
or_failed name (some r) = r

module _ (F : Type 0) ⦃fl : Float F⦄ (texts : Texts) where
  unfoldable pub run_check : EndState → Check F → Option ValidatorResult
  unfolding slack_message_posted message_mentions_terms message_excludes_terms
      message_mentions_amount notion_page_created notion_property_equals notion_todos_mention
      crm_activity_logged
  run_check state (posted c t) = some (slack_message_posted state c t)
  run_check state (mentions c ts t) = message_mentions_terms F texts state c ts t
  run_check state (excludes c ts t) = message_excludes_terms F texts state c ts t
  run_check state (states c a r t) = message_mentions_amount F texts state c a r t
  run_check state (page_created d p) = some (notion_page_created texts state d p)
  run_check state (property_equals d p k v) = some (notion_property_equals texts state d p k v)
  run_check state (todos_mention d p ts n) = some (notion_todos_mention texts state d p ts n)
  run_check state (activity_logged c p) = some (crm_activity_logged texts state c p)

  -- A validator with its arguments, bound and run.
  unfoldable pub run_bound :
      EndState → (Fields → Option (Check F)) → Rendered Fields → Rendered (Option ValidatorResult)
  unfolding run_check
  run_bound state bound (rendered args) = rendered (bound args >>= run_check state)
  run_bound state bound (render_error e) = rendered none
  run_bound state bound escapes = escapes

  unfoldable pub named :
      String
      → EndState
      → Option (Fields → Option (Check F))
      → Rendered Fields
      → Rendered ValidatorResult
  unfolding run_bound
  named name state none args = escapes
  named name state (some bound) args =
      bind (run_bound state bound args) (λ o. rendered (or_failed name o))

  -- One spec; `escapes` is the KeyError of an unknown name, or another exception of a template.
  unfoldable pub run_spec : Templates → EndState → Fields → ValidatorSpec → Rendered ValidatorResult
  unfolding named render_value lookup validators_dict
  run_spec jinja state context spec =
      named spec.spec_name state (lookup spec.spec_name validators_dict)
        (render_fields jinja context spec.args)

  unfoldable pub run_specs :
      Templates → EndState → Fields → List ValidatorSpec → Rendered (List ValidatorResult)
  unfolding run_spec
  run_specs jinja state context [] = rendered []
  run_specs jinja state context (spec ∷ specs) =
      bind (run_spec jinja state context spec)
        (λ r. bind (run_specs jinja state context specs) (λ rs. rendered (r ∷ rs)))

  unfoldable pub run_validators :
      Templates → List ValidatorSpec → EndState → Fields → Fields → Rendered (List ValidatorResult)
  unfolding run_specs
  run_validators jinja specs state refs inputs =
      run_specs jinja state
        (Fields.field "refs" (Value.dict refs)
          (Fields.field "inputs" (Value.dict inputs) Fields.empty))
        specs

abbrev pub all_pass : List ValidatorResult → Bool
all_pass [] = true
all_pass (r ∷ rs) = r.passed && all_pass rs

abbrev pub all_passed : List ValidatorResult → Bool
all_passed [] = false
all_passed (r ∷ rs) = all_pass (r ∷ rs)
