-- ===== src/Paths/Planner/Checked.antt =====
-- paths/planner_executor.py: what validate_plan makes sure of, step by step.
use agent_roi_console.Common.{
  suc, ◌≤◌, ◌≡◌, refl, subst, ap, Bool, true, false, not, ◌&&◌, Bool-cases, inl, inr, List, [], ◌∷◌,
  length, String, Option, none, some, arith, leb, leb→le,
}
use agent_roi_console.Json.{Value, Items, Fields, get}
use agent_roi_console.Workflows.{is_in}
use agent_roi_console.Paths.{Result, done, stops, crashes, Services}
use agent_roi_console.Paths.Total.{done_injective}
use agent_roi_console.Paths.Planner.{
  max_plan_steps, and_then, get_or, has_value, text_at, iterate, in_set, or_unknown, any_unknown,
  check_elements, check_named, is_object, refs_of, all_in, check_inputs, check_tool, check_generate,
  check_action, check_placeholders, check_step, check_steps, check_count, step_list, validate_plan,
}

module _ {A B : Type 0} where
  -- What a chain of checks that is done went through.
  pub and_then-done :
      (r : Result A) (f : A → Result B) (b : B)
      → and_then r f ≡ done b
      → (a : A) × (r ≡ done a) × (f a ≡ done b)
  unfolding and_then
  and_then-done (done a) f b e = (a, refl, e)
  and_then-done (stops x) f b e = absurd (ground arith)
  and_then-done crashes f b e = absurd (ground arith)

or_unknown-known :
    (o : Option Bool) (rest : Result Bool)
    → or_unknown o rest ≡ done false
    → (o ≡ some true) × (rest ≡ done false)
unfolding or_unknown
or_unknown-known none rest e = absurd (ground arith)
or_unknown-known (some true) rest e = (refl, e)
or_unknown-known (some false) rest e =
    absurd (ground (arith, (and_then-done rest (λ b. done true) false e).2))

-- Every value names a step of `seen`.
abbrev pub AllNamed : List String → List Value → Type 0
AllNamed seen [] = Unit
AllNamed seen (v ∷ vs) = (in_set seen v ≡ some true) × AllNamed seen vs

any_unknown-AllNamed :
    (seen : List String) (vs : List Value) → any_unknown seen vs ≡ done false → AllNamed seen vs
unfolding any_unknown
any_unknown-AllNamed seen [] e = tt
any_unknown-AllNamed seen (v ∷ vs) e =
    let both = or_unknown-known (in_set seen v) (any_unknown seen vs) e in
    (both.0, any_unknown-AllNamed seen vs both.1)

-- What the execution of a step of a plan relies on.
module _ {F W : Type 0} (services : Services F W) where
  abbrev pub HasInputs : List String → Fields → Type 0
  HasInputs seen step =
      (vs : List Value) × (iterate (get_or (Value.list Items.nil) "inputs" step) ≡ some vs)
      × AllNamed seen vs

  abbrev pub args_of : Fields → Value
  args_of step = get_or (Value.dict Fields.empty) "args" step

  pub record IsChecked (allowed seen : List String) (step : String × Fields) : Type 0 where
    pub fresh : is_in step.0 seen ≡ false
    pub by_tool : has_value "action" "tool" step.1 ≡ true → is_object (args_of step.1) ≡ true
    pub by_model : has_value "action" "tool" step.1 ≡ false → HasInputs seen step.1
    pub covered : all_in seen (refs_of (services.pieces (services.dumps (args_of step.1)))) ≡ true

  abbrev pub AllChecked : List String → List String → List (String × Fields) → Type 0
  AllChecked allowed seen [] = Unit
  AllChecked allowed seen (step ∷ plan) =
      IsChecked allowed seen step × AllChecked allowed (step.0 ∷ seen) plan

  check_elements-AllNamed :
      (seen : List String) (o : Option (List Value))
      → check_elements seen o ≡ done tt
      → (vs : List Value) × (o ≡ some vs) × AllNamed seen vs
  unfolding check_elements
  check_elements-AllNamed seen none e = absurd (ground arith)
  check_elements-AllNamed seen (some vs) e =
      let (b, known, ended) = and_then-done (any_unknown seen vs) _ tt e in
      (vs, refl, any_unknown-AllNamed seen vs (ground arith))

  check_action-inputs :
      (allowed seen : List String) (step : Fields)
      → check_action allowed seen step ≡ done tt
      → (has_value "action" "tool" step ≡ true → is_object (args_of step) ≡ true)
        × (has_value "action" "tool" step ≡ false → HasInputs seen step)
  unfolding check_action check_tool check_generate check_inputs
  check_action-inputs allowed seen step e = (
    λ h. ground arith,
    λ h.
        check_elements-AllNamed seen (iterate (get_or (Value.list Items.nil) "inputs" step))
          (ground arith),
  )

  check_named-IsChecked :
      (allowed seen : List String) (step : Fields) (o : Option String) (out : String × Fields)
      → check_named services allowed seen step o ≡ done out
      → IsChecked allowed seen out
  unfolding check_named check_placeholders
  check_named-IsChecked allowed seen step none out e = absurd (ground arith)
  check_named-IsChecked allowed seen step (some id) out e =
      elim (Bool-cases (not (is_in id seen) && services.is_step_id id)) [
        | inl h ↦
            let (u, acted, rest) =
              and_then-done (check_action allowed seen step) _ out (rw h at e) in
            let (v, placed, same) =
              and_then-done (check_placeholders services seen step) _ out rest in
            let inputs = check_action-inputs allowed seen step acted in
            subst (IsChecked allowed seen) (done_injective (id, step) out same) (record {
              fresh = ground arith;
              by_tool = inputs.0;
              by_model = inputs.1;
              covered = ground arith;
            })
        | inr h ↦ absurd (ground arith)
      ]

  check_step-IsChecked :
      (allowed seen : List String) (v : Value) (out : String × Fields)
      → check_step services allowed seen v ≡ done out
      → IsChecked allowed seen out
  unfolding check_step
  check_step-IsChecked allowed seen (Value.dict step) out e =
      check_named-IsChecked allowed seen step (text_at "id" step) out e
  check_step-IsChecked allowed seen Value.null out e = absurd (ground arith)
  check_step-IsChecked allowed seen (Value.boolean b) out e = absurd (ground arith)
  check_step-IsChecked allowed seen (Value.number n) out e = absurd (ground arith)
  check_step-IsChecked allowed seen (Value.text s) out e = absurd (ground arith)
  check_step-IsChecked allowed seen (Value.list vs) out e = absurd (ground arith)

  check_steps-AllChecked :
      (allowed seen : List String) (vs : List Value) (plan : List (String × Fields))
      → check_steps services allowed seen vs ≡ done plan
      → AllChecked allowed seen plan × (length plan ≡ length vs)
  unfolding check_steps
  check_steps-AllChecked allowed seen [] [] e = (tt, refl)
  check_steps-AllChecked allowed seen [] (s ∷ plan) e = absurd (ground arith)
  check_steps-AllChecked allowed seen (v ∷ vs) plan e =
      let (step, checked, more) = and_then-done (check_step services allowed seen v) _ plan e in
      let (rest, steps, same) =
        and_then-done (check_steps services allowed (step.0 ∷ seen) vs) _ plan more in
      let tail = check_steps-AllChecked allowed (step.0 ∷ seen) vs rest steps in
      subst (λ p. AllChecked allowed seen p × (length p ≡ suc (length vs)))
        (done_injective (step ∷ rest) plan same)
        ((check_step-IsChecked allowed seen v step checked, tail.0), ap suc tail.1)

  check_count-AllChecked :
      (allowed : List String) (vs : List Value) (plan : List (String × Fields))
      → check_count services allowed vs ≡ done plan
      → AllChecked allowed [] plan × (length plan ≤ max_plan_steps)
  unfolding check_count
  check_count-AllChecked allowed [] plan e = absurd (ground arith)
  check_count-AllChecked allowed (v ∷ vs) plan e =
      elim (Bool-cases (leb (length (v ∷ vs)) max_plan_steps)) [
        | inl h ↦
            let all = check_steps-AllChecked allowed [] (v ∷ vs) plan (rw h at e) in
            (all.0, omega (arith, all.1, leb→le (length (v ∷ vs)) max_plan_steps h))
        | inr h ↦ absurd (ground arith)
      ]

  -- A plan that is validated has at most 12 steps, and each of them passed its checks.
  pub validate_plan-AllChecked :
      (allowed : List String) (v : Value) (plan : List (String × Fields))
      → validate_plan services allowed v ≡ done plan
      → AllChecked allowed [] plan × (length plan ≤ max_plan_steps)
  unfolding validate_plan
  validate_plan-AllChecked allowed (Value.dict d) plan e =
      check_count-AllChecked allowed (step_list services (get "steps" d)) plan e
  validate_plan-AllChecked allowed Value.null plan e = absurd (ground arith)
  validate_plan-AllChecked allowed (Value.boolean b) plan e = absurd (ground arith)
  validate_plan-AllChecked allowed (Value.number n) plan e = absurd (ground arith)
  validate_plan-AllChecked allowed (Value.text s) plan e = absurd (ground arith)
  validate_plan-AllChecked allowed (Value.list vs) plan e = absurd (ground arith)
