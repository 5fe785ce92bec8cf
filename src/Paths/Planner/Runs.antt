-- ===== src/Paths/Planner/Runs.antt =====
-- paths/planner_executor.py: the execution of a checked plan ends inside the recursion limit, in
-- outputs or in a PathError, and never in another exception.
use agent_roi_console.Common.{
  ℕ, zero, suc, ◌-◌, ◌≤◌, ◌≡◌, refl, subst, ◌∙◌, Bool, true, false, Bool-cases, Option-cases, inl,
  inr, List, [], ◌∷◌, ◌++◌, length, length-append, String, Option, All, append_text, arith, leb,
}
use mathlib.Core.List.{append_assoc}
use agent_roi_console.Json.{Value, Fields, keys, with_field}
use agent_roi_console.Workflows.{AgentSettings, is_in}
use agent_roi_console.Paths.{done, Services, Context, ◌>>=◌}
use agent_roi_console.Paths.Planner.{has_value, is_object, refs_of, all_in, validate_plan}
use agent_roi_console.Paths.Planner.Execute.{
  found, resolve_placeholders, resolve_fields, input_parts, input_text,
}
use agent_roi_console.Paths.Planner.Graph.{
  Prompts, as_fields, generated, execute_tool, execute_generate, execute, step_at, execute_all,
  recursion_limit,
}
use agent_roi_console.Paths.Planner.Outputs.{
  and_then-is_crash, found_key, Covers, value_refs, resolve-is_crash, is_in-with_field,
  length-with_field,
}
use agent_roi_console.Paths.Planner.Checked.{
  AllNamed, HasInputs, args_of, IsChecked, AllChecked, and_then-done, validate_plan-AllChecked,
}
use agent_roi_console.Paths.Total.{
  done_injective, is_crash, IsTotal, bind-IsTotal, lift_bind-IsTotal, lift-IsTotal,
  llm_step-IsTotal, tool_step-IsTotal,
}
use agent_roi_console.Paths.Output.{parse_json_output}

module _ {F W : Type 0} (services : Services F W) where
  -- Placeholders in the texts of the arguments are found in their dump too.
  abbrev pub IsShown : String × Fields → Type 0
  IsShown step =
      (seen : List String)
      → all_in seen (refs_of (services.pieces (services.dumps (args_of services step.1)))) ≡ true
      → all_in seen (value_refs services (args_of services step.1)) ≡ true

  as_fields-resolved :
      (outputs : Fields) (v w : Value)
      → is_object v ≡ true
      → resolve_placeholders services outputs v ≡ done w
      → is_crash (as_fields w) ≡ false
  unfolding resolve_placeholders
  as_fields-resolved outputs (Value.dict d) w o e =
      let (fields, resolved, same) = and_then-done (resolve_fields services outputs d) _ w e in
      ground arith
  as_fields-resolved outputs Value.null w o e = absurd (ground arith)
  as_fields-resolved outputs (Value.boolean b) w o e = absurd (ground arith)
  as_fields-resolved outputs (Value.number n) w o e = absurd (ground arith)
  as_fields-resolved outputs (Value.text s) w o e = absurd (ground arith)
  as_fields-resolved outputs (Value.list vs) w o e = absurd (ground arith)

  input_parts-is_crash :
      (outputs : Fields) (seen : List String) (vs : List Value)
      → Covers outputs seen
      → AllNamed seen vs
      → is_crash (input_parts services outputs vs) ≡ false
  unfolding input_parts
  input_parts-is_crash outputs seen [] c h = refl
  input_parts-is_crash outputs seen (Value.text ref ∷ vs) c h =
      found_key outputs ref _ (c ref ∙ ground arith)
        (λ v. and_then-is_crash _ _ (input_parts-is_crash outputs seen vs c h.1) (λ rest. refl))
  input_parts-is_crash outputs seen (Value.null ∷ vs) c h = absurd (ground arith)
  input_parts-is_crash outputs seen (Value.boolean b ∷ vs) c h = absurd (ground arith)
  input_parts-is_crash outputs seen (Value.number n ∷ vs) c h = absurd (ground arith)
  input_parts-is_crash outputs seen (Value.dict d ∷ vs) c h = absurd (ground arith)
  input_parts-is_crash outputs seen (Value.list ws ∷ vs) c h = absurd (ground arith)

  input_text-is_crash :
      (outputs : Fields) (seen : List String) (step : Fields)
      → Covers outputs seen
      → HasInputs services seen step
      → is_crash (input_text services outputs step) ≡ false
  unfolding input_text found
  input_text-is_crash outputs seen step c (vs, e, named) =
      rw e (and_then-is_crash _ _ (input_parts-is_crash outputs seen vs c named) (λ ps. refl))

module _ {F W : Type 0} (services : Services F W) (ctx : Context) (agent : AgentSettings)
    (prompts : Prompts) where
  generated-is_crash :
      (step_id : String) (o_json : Bool) (content : Option String)
      → is_crash (generated services ctx agent prompts step_id o_json content) ≡ false
  unfolding generated
  generated-is_crash step_id true content =
      elim (Option-cases (parse_json_output services content)) [
        | inl e ↦ rw e refl
        | inr e ↦ rw e.1 refl
      ]
  generated-is_crash step_id false content = refl

  execute-IsTotal :
      (allowed : List String) (outputs : Fields) (seen : List String) (step : String × Fields)
      → Covers outputs seen
      → IsChecked services allowed seen step
      → IsShown services step
      → IsTotal (execute services ctx agent prompts step outputs)
  unfolding execute execute_tool execute_generate
  execute-IsTotal allowed outputs seen step c checked shown =
      let step_id = append_text "exec_" step.0 in
      let o_json = has_value "output" "json" step.1 in
      elim (Bool-cases (has_value "action" "tool" step.1)) [
        | inl h ↦ rw h (
            lift_bind-IsTotal (resolve_placeholders services outputs (args_of services step.1)) _
              (resolve-is_crash services outputs seen (args_of services step.1) c
                (shown seen checked.covered))
              (λ v e.
                lift_bind-IsTotal (as_fields v) _
                  (as_fields-resolved services outputs (args_of services step.1) v
                    (checked.by_tool h) e)
                  (λ args k.
                    bind-IsTotal _ _ (tool_step-IsTotal services ctx _ _ args)
                      (λ result. lift-IsTotal (done (Value.dict result)) refl))))
        | inr h ↦ rw h (
            lift_bind-IsTotal (input_text services outputs step.1) _
              (input_text-is_crash services outputs seen step.1 c (checked.by_model h))
              (λ inputs e. bind-IsTotal _ _ (llm_step-IsTotal services ctx _ _ _ _ _ _) (λ result.
                lift-IsTotal (generated services ctx agent prompts step_id o_json result.content)
                  (generated-is_crash step_id o_json result.content))))
      ]

  step_at-front :
      (front rest : List (String × Fields)) (step : String × Fields)
      → step_at (length front) (front ++ step ∷ rest) ≡ done step
  step_at-front [] rest step = refl
  step_at-front (p ∷ front) rest step = step_at-front front rest step

  all_executed :
      (front : List (String × Fields)) (outputs : Fields)
      → length (keys outputs) ≡ length front
      → leb (length (front ++ [])) (length (keys outputs)) ≡ true
  all_executed front outputs n = ground (arith, length-append front [])

  not_all_executed :
      (front rest : List (String × Fields)) (step : String × Fields) (outputs : Fields)
      → length (keys outputs) ≡ length front
      → leb (length (front ++ step ∷ rest)) (length (keys outputs)) ≡ false
  not_all_executed front rest step outputs n = ground (arith, length-append front (step ∷ rest))

  -- The steps `front` have outputs, and the steps `rest` are still to be executed.
  execute_all-IsTotal :
      (allowed : List String) (limit : ℕ) (front rest : List (String × Fields)) (outputs : Fields)
      (seen : List String)
      → length rest ≤ limit
      → length (keys outputs) ≡ length front
      → Covers outputs seen
      → AllChecked services allowed seen rest
      → All (IsShown services) rest
      → IsTotal (execute_all services ctx agent prompts limit (front ++ rest) outputs)
  unfolding execute_all
  execute_all-IsTotal allowed zero front [] outputs seen l n c checked shown =
      lift-IsTotal _ (rw (all_executed front outputs n) refl)
  execute_all-IsTotal allowed (suc limit) front [] outputs seen l n c checked shown =
      rw (all_executed front outputs n) (lift-IsTotal (done outputs) refl)
  execute_all-IsTotal allowed zero front (step ∷ rest) outputs seen l n c checked shown =
      absurd (omega arith)
  execute_all-IsTotal allowed (suc limit) front (step ∷ rest) outputs seen l n c checked shown =
      let fresh : is_in step.0 (keys outputs) ≡ false = c step.0 ∙ checked.0.fresh in
      rw (not_all_executed front rest step outputs n) (
        rw n (
          rw (step_at-front front rest step) (
            lift_bind-IsTotal (done step) _ refl (λ other same.
              subst
                (λ q. IsTotal (
                  execute services ctx agent prompts q outputs >>= λ output.
                  execute_all services ctx agent prompts limit (front ++ step ∷ rest)
                    (with_field q.0 output outputs)))
                (done_injective step other same)
                (bind-IsTotal _ _ (execute-IsTotal allowed outputs seen step c checked.0 shown.0)
                  (λ output.
                    subst
                      (λ plan. IsTotal (
                        execute_all services ctx agent prompts limit plan
                          (with_field step.0 output outputs)))
                      (append_assoc front (step ∷ []) rest)
                      (execute_all-IsTotal allowed limit (front ++ step ∷ []) rest
                        (with_field step.0 output outputs) (step.0 ∷ seen) (omega arith)
                        (omega (
                          arith,
                          n,
                          length-with_field step.0 output outputs fresh,
                          length-append front (step ∷ []),
                        ))
                        (λ ref. ground (arith, c ref, is_in-with_field ref step.0 output outputs))
                        checked.1 shown.1)))))))

  -- A validated plan, whose placeholders in texts are all in its dump too, is executed within the
  -- recursion limit: it ends in outputs or in a PathError, and in no other exception.
  pub validated-IsTotal :
      (allowed : List String) (v : Value) (plan : List (String × Fields))
      → validate_plan services allowed v ≡ done plan
      → All (IsShown services) plan
      → IsTotal (execute_all services ctx agent prompts (recursion_limit - 1) plan Fields.empty)
  unfolding keys
  validated-IsTotal allowed v plan e shown =
      let (checked, short) = validate_plan-AllChecked services allowed v plan e in
      execute_all-IsTotal allowed (recursion_limit - 1) [] plan Fields.empty []
        (omega (arith, short)) refl (λ ref. refl) checked shown
