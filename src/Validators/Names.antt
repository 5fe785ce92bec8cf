-- ===== src/Validators/Names.antt =====
-- validators/engine.py: each result stands under the name of the validator that gave it.
use agent_roi_console.Common.{
  ◌≡◌, refl, sym, subst, ap, ap₂, ◌∙◌, Bool, Bool-cases, Option-cases, inl, inr, List, [], ◌∷◌, map,
  String, Option, none, some, str_eq, eq_iff, arith, if◌then◌else◌,
}
use agent_roi_console.Common.Dict.{lookup}
use agent_roi_console.Json.{Fields}
use agent_roi_console.Workflows.Rendering.{
  Templates, Rendered, rendered, render_error, escapes, bind,
}
use agent_roi_console.Float.{Float}
use agent_roi_console.Validators.{SlackMessage, EndState, ValidatorResult, Texts}
use agent_roi_console.Validators.Binding.{
  Check, posted, mentions, excludes, states, page_created, property_equals, todos_mention,
  activity_logged, name_of, validators_dict, applied, ◌>>=◌,
}
use agent_roi_console.Validators.Checks.{
  slack_message_posted, message_mentions_terms, message_excludes_terms, message_mentions_amount,
  notion_page_created, notion_property_equals, notion_todos_mention, crm_activity_logged, on_latest,
}
use agent_roi_console.Validators.Engine.{
  ValidatorSpec, spec_names, run_check, run_bound, or_failed, named, run_spec, run_specs,
}

module _ {A : Type 0} where
  some_injective : (a b : A) → some a ≡ some b → a ≡ b
  some_injective a b e = ground arith

module _ {A : Type 0} where
  rendered_injective : (a b : A) → rendered a ≡ rendered b → a ≡ b
  rendered_injective a b e = ground arith

module _ {A B : Type 0} where
  bind-rendered :
      (r : Rendered A) (f : A → Rendered B) (b : B)
      → bind r f ≡ rendered b
      → (a : A) × (r ≡ rendered a) × (f a ≡ rendered b)
  bind-rendered (rendered a) f b e = (a, refl, e)
  bind-rendered (render_error x) f b e = absurd (ground arith)
  bind-rendered escapes f b e = absurd (ground arith)

module _ {F : Type 0} where
  -- The checks under a name are of that name.
  abbrev Names : String → Option (Check F) → Type 0
  Names name o = (c : Check F) → o ≡ some c → name_of c ≡ name

module _ {F A : Type 0} where
  applied-Names :
      (name : String) (make : A → Check F) (args : Fields → Option A)
      → ((a : A) → name_of (make a) ≡ name)
      → (d : Fields) → Names name (applied make args d)
  unfolding applied
  applied-Names name make args h d c e = elim (Option-cases (args d)) [
    | inl n ↦ absurd (ground arith)
    | inr a ↦ ap name_of (sym (some_injective (make a.0) c (ground arith))) ∙ h a.0
  ]

module _ {F : Type 0} where
  -- An entry of the registry, or a later one.
  entry-Names :
      (name key : String) (f bound : Fields → Option (Check F))
      (rest : Option (Fields → Option (Check F)))
      → ((d : Fields) → Names key (f d))
      → (rest ≡ some bound → (d : Fields) → Names name (bound d))
      → (if str_eq key name then some f else rest) ≡ some bound
      → (d : Fields) → Names name (bound d)
  entry-Names name key f bound rest h k e = elim (Bool-cases (str_eq key name)) [
    | inl m ↦
        subst (λ n. (d : Fields) → Names n (bound d)) ((eq_iff key name).0 m)
          (subst (λ g. (d : Fields) → Names key (g d)) (some_injective f bound (rw m at e)) h)
    | inr m ↦ k (rw m at e)
  ]

module _ {F : Type 0} ⦃fl : Float F⦄ where
  validators_dict-Names :
      (name : String) (bound : Fields → Option (Check F))
      → lookup name validators_dict ≡ some bound
      → (d : Fields) → Names name (bound d)
  unfolding lookup validators_dict
  validators_dict-Names name bound =
      entry-Names name "slack_message_posted" _ bound _ (applied-Names _ _ _ (λ a. refl)) (
        entry-Names name "message_mentions_terms" _ bound _ (applied-Names _ _ _ (λ a. refl)) (
          entry-Names name "message_excludes_terms" _ bound _ (applied-Names _ _ _ (λ a. refl)) (
            entry-Names name "message_mentions_amount" _ bound _ (applied-Names _ _ _ (λ a. refl)) (
              entry-Names name "notion_page_created" _ bound _ (applied-Names _ _ _ (λ a. refl)) (
                entry-Names name "notion_property_equals" _ bound _
                  (applied-Names _ _ _ (λ a. refl))
                  (entry-Names name "notion_todos_mention" _ bound _
                    (applied-Names _ _ _ (λ a. refl))
                    (entry-Names name "crm_activity_logged" _ bound none
                      (applied-Names _ _ _ (λ a. refl)) (λ e. absurd (ground arith)))))))))

module _ (F : Type 0) ⦃fl : Float F⦄ (texts : Texts) where
  on_latest-name :
      (name : String) (o : Option (Option SlackMessage)) (test : String → Bool)
      (r : ValidatorResult)
      → on_latest name o test ≡ some r
      → r.name ≡ name
  on_latest-name name none test r e = absurd (ground arith)
  on_latest-name name (some none) test r e = ap (λ q. q.name) (sym (some_injective _ r e))
  on_latest-name name (some (some m)) test r e = ap (λ q. q.name) (sym (some_injective _ r e))

  run_check-name :
      (state : EndState) (c : Check F) (r : ValidatorResult)
      → run_check F texts state c ≡ some r
      → r.name ≡ name_of c
  unfolding run_check slack_message_posted message_mentions_terms message_excludes_terms
      message_mentions_amount notion_page_created notion_property_equals notion_todos_mention
      crm_activity_logged
  run_check-name state (posted c t) r e = ap (λ q. q.name) (sym (some_injective _ r e))
  run_check-name state (mentions c ts t) r e = on_latest-name "message_mentions_terms" _ _ r e
  run_check-name state (excludes c ts t) r e = on_latest-name "message_excludes_terms" _ _ r e
  run_check-name state (states c a l t) r e = on_latest-name "message_mentions_amount" _ _ r e
  run_check-name state (page_created d p) r e = ap (λ q. q.name) (sym (some_injective _ r e))
  run_check-name state (property_equals d p k v) r e = ap (λ q. q.name) (sym (some_injective _ r e))
  run_check-name state (todos_mention d p ts n) r e = ap (λ q. q.name) (sym (some_injective _ r e))
  run_check-name state (activity_logged c p) r e = ap (λ q. q.name) (sym (some_injective _ r e))

  or_failed-name :
      (name : String) (state : EndState) (o : Option (Check F))
      → Names name o
      → (or_failed name (o >>= run_check F texts state)).name ≡ name
  or_failed-name name state none h = refl
  or_failed-name name state (some c) h = elim (Option-cases (run_check F texts state c)) [
    | inl e ↦ rw e refl
    | inr r ↦ rw r.1 (run_check-name state c r.0 r.1 ∙ h c refl)
  ]

  named-name :
      (name : String) (state : EndState) (found : Option (Fields → Option (Check F)))
      (args : Rendered Fields) (r : ValidatorResult)
      → ((bound : Fields → Option (Check F))
          → found ≡ some bound
          → (d : Fields) → Names name (bound d))
      → named F texts name state found args ≡ rendered r
      → r.name ≡ name
  unfolding named run_bound
  named-name name state none args r h e = absurd (ground arith)
  named-name name state (some bound) (rendered d) r h e =
      ap (λ q. q.name) (sym (rendered_injective _ r e))
      ∙ or_failed-name name state (bound d) (h bound refl d)
  named-name name state (some bound) (render_error x) r h e =
      ap (λ q. q.name) (sym (rendered_injective _ r e))
  named-name name state (some bound) escapes r h e = absurd (ground arith)

  -- A run of the validators has one result for each that the task configures, under its name.
  pub run_specs-names :
      (jinja : Templates) (state : EndState) (context : Fields) (specs : List ValidatorSpec)
      (rs : List ValidatorResult)
      → run_specs F texts jinja state context specs ≡ rendered rs
      → map (λ r. r.name) rs ≡ spec_names specs
  unfolding run_specs run_spec
  run_specs-names jinja state context [] rs e =
      ap (map (λ r. r.name)) (sym (rendered_injective [] rs e))
  run_specs-names jinja state context (spec ∷ specs) rs e =
      let (r, first, more) = bind-rendered (run_spec F texts jinja state context spec) _ rs e in
      let (rest, others, same) =
        bind-rendered (run_specs F texts jinja state context specs) _ rs more in
      ap (map (λ r. r.name)) (sym (rendered_injective (r ∷ rest) rs same))
      ∙ ap₂ ◌∷◌ (named-name spec.spec_name state _ _ r (validators_dict-Names spec.spec_name) first)
          (run_specs-names jinja state context specs rest others)
