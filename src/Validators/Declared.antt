-- ===== src/Validators/Declared.antt =====
-- validators/engine.py: the results of a task are those of the validators that its workflow declares.
use agent_roi_console.Common.{
  ◌≡◌, refl, sym, ap, ◌∙◌, Bool, true, false, ◌&&◌, List, [], ◌∷◌, map, String, text_le, str_eq,
  eq_iff, arith, if◌then◌else◌,
}
use agent_roi_console.Common.Sort.{sorted, insert_sorted}
use agent_roi_console.Json.{Fields}
use agent_roi_console.Workflows.{is_in}
use agent_roi_console.Workflows.Rendering.{Templates, rendered}
use agent_roi_console.Float.{Float}
use agent_roi_console.Validators.{EndState, ValidatorResult, Texts}
use agent_roi_console.Validators.Names.{run_specs-names}
use agent_roi_console.Validators.Engine.{
  ValidatorSpec, spec_names, same_texts, check_task_validators, run_validators, all_pass,
  all_passed,
}

is_in-insert_sorted :
    (x a : String) (xs : List String) → is_in x (insert_sorted text_le a xs) ≡ is_in x (a ∷ xs)
unfolding insert_sorted
is_in-insert_sorted x a [] = refl
is_in-insert_sorted x a (y ∷ xs) = ground (arith, is_in-insert_sorted x a xs)

is_in-sorted : (x : String) (xs : List String) → is_in x (sorted text_le xs) ≡ is_in x xs
unfolding sorted
is_in-sorted x [] = refl
is_in-sorted x (y ∷ xs) =
    ground (arith, is_in-sorted x xs, is_in-insert_sorted x y (sorted text_le xs))

same_texts-eq : (ss ts : List String) → same_texts ss ts ≡ true → ss ≡ ts
same_texts-eq [] [] h = refl
same_texts-eq [] (t ∷ ts) h = absurd (ground arith)
same_texts-eq (s ∷ ss) [] h = absurd (ground arith)
same_texts-eq (s ∷ ss) (t ∷ ts) h = ground (arith, eq_iff s t, same_texts-eq ss ts)

-- A validator that the workflow declares is one that the task configures.
declared-is_in :
    (declared : List String) (specs : List ValidatorSpec) (name : String)
    → check_task_validators declared specs ≡ true
    → is_in name declared ≡ true
    → is_in name (spec_names specs) ≡ true
unfolding check_task_validators
declared-is_in declared specs name h d =
    let same =
      same_texts-eq (sorted text_le (spec_names specs)) (sorted text_le declared) (ground arith) in
    sym (is_in-sorted name (spec_names specs))
    ∙ ap (is_in name) same
    ∙ is_in-sorted name declared
    ∙ d

-- A result under the name that has passed.
abbrev pub has_passed : String → List ValidatorResult → Bool
has_passed name [] = false
has_passed name (r ∷ rs) = if str_eq r.name name && r.passed then true else has_passed name rs

all_pass-has_passed :
    (name : String) (rs : List ValidatorResult)
    → all_pass rs ≡ true
    → is_in name (map (λ r. r.name) rs) ≡ true
    → has_passed name rs ≡ true
all_pass-has_passed name [] a h = h
all_pass-has_passed name (r ∷ rs) a h = ground (arith, all_pass-has_passed name rs)

all_passed-all_pass : (rs : List ValidatorResult) → all_passed rs ≡ true → all_pass rs ≡ true
all_passed-all_pass [] h = absurd (ground arith)
all_passed-all_pass (r ∷ rs) h = h

module _ (F : Type 0) ⦃fl : Float F⦄ (texts : Texts) where
  -- If all results passed, of a task that was checked against its workflow, then every validator that
  -- the workflow declares has run and passed.
  pub declared-has_passed :
      (jinja : Templates) (declared : List String) (specs : List ValidatorSpec) (state : EndState)
      (refs inputs : Fields) (rs : List ValidatorResult) (name : String)
      → check_task_validators declared specs ≡ true
      → run_validators F texts jinja specs state refs inputs ≡ rendered rs
      → all_passed rs ≡ true
      → is_in name declared ≡ true
      → has_passed name rs ≡ true
  unfolding run_validators
  declared-has_passed jinja declared specs state refs inputs rs name checked ran passed h =
      all_pass-has_passed name rs (all_passed-all_pass rs passed) (
        ap (is_in name) (run_specs-names F texts jinja state _ specs rs ran)
        ∙ declared-is_in declared specs name checked h)
