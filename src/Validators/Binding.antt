-- ===== src/Validators/Binding.antt =====
-- validators/library.py: VALIDATORS_DICT, and the call of a validator by the names of its arguments.
use agent_roi_console.Common.{
  ℕ, Bool, true, false, List, [], ◌∷◌, String, Option, none, some, if◌then◌else◌,
}
use agent_roi_console.Common.Dict.{Dict}
use agent_roi_console.Common.Text.{all_digits, read_digits}
use agent_roi_console.Json.{Value, Fields, get, elements}
use agent_roi_console.Workflows.{is_in}
use agent_roi_console.Float.{Float, float, ◌⊘◌}

-- A validator of VALIDATORS_DICT with its arguments.
pub data Check (F : Type 0) : Type 0 where
  posted : String → Option String → Check F
  mentions : String → List String → Option String → Check F
  excludes : String → List String → Option String → Check F
  states : String → F → F → Option String → Check F
  page_created : String → String → Check F
  property_equals : String → String → String → Value → Check F
  todos_mention : String → String → List String → ℕ → Check F
  activity_logged : String → String → Check F

abbrev pub validator_names : List String
validator_names =
    "slack_message_posted" ∷ "message_mentions_terms" ∷ "message_excludes_terms"
    ∷ "message_mentions_amount" ∷ "notion_page_created" ∷ "notion_property_equals"
    ∷ "notion_todos_mention" ∷ "crm_activity_logged" ∷ []

module _ {F : Type 0} where
  -- The name under which a check is registered.
  abbrev pub name_of : Check F → String
  name_of (posted c t) = "slack_message_posted"
  name_of (mentions c ts t) = "message_mentions_terms"
  name_of (excludes c ts t) = "message_excludes_terms"
  name_of (states c a r t) = "message_mentions_amount"
  name_of (page_created d p) = "notion_page_created"
  name_of (property_equals d p k v) = "notion_property_equals"
  name_of (todos_mention d p ts n) = "notion_todos_mention"
  name_of (activity_logged c p) = "crm_activity_logged"

module _ {A B : Type 0} where
  infixl 5 ◌>>=◌
  abbrev pub ◌>>=◌ : Option A → (A → Option B) → Option B
  none >>= f = none
  some a >>= f = f a

-- The arguments of a call by their names; `none` where one is missing or of another type.
abbrev text_arg : String → Fields → Option String
text_arg k d = elim (get k d) [ some v ↦ elim v [ Value.text s ↦ some s | _ ↦ none ] | none ↦ none ]

abbrev thread_arg : Fields → Option String
thread_arg d = text_arg "thread_ts" d

abbrev texts_in : List Value → Option (List String)
texts_in [] = some []
texts_in (Value.text s ∷ vs) = do rest ← texts_in vs; some (s ∷ rest)
texts_in (_ ∷ vs) = none

abbrev texts_arg : String → Fields → Option (List String)
texts_arg k d = elim (get k d) [
  | some v ↦ elim v [ Value.list vs ↦ texts_in (elements vs) | _ ↦ none ]
  | none ↦ none
]

abbrev count_arg : String → Fields → Option ℕ
count_arg k d = elim (get k d) [
  | some v ↦ elim v [
    | Value.number n ↦ if all_digits n then some (read_digits 0 n) else none
    | _ ↦ none
  ]
  | none ↦ none
]

-- The keywords that a call may have, else a TypeError.
abbrev only : List String → Fields → Bool
only allowed Fields.empty = true
only allowed (Fields.field k v d) = if is_in k allowed then only allowed d else false

module _ {F : Type 0} ⦃fl : Float F⦄ where
  abbrev amount_arg : String → Fields → Option F
  amount_arg k d = elim (get k d) [
    | some v ↦ elim v [ Value.number n ↦ fl.parse n | _ ↦ none ]
    | none ↦ none
  ]

  -- `rel_tol`, or DEFAULT_AMOUNT_REL_TOL
  abbrev tolerance_arg : Fields → Option F
  tolerance_arg d = elim (get "rel_tol" d) [
    | none ↦ some (float 5 ⊘ float 1000)
    | some v ↦ amount_arg "rel_tol" d
  ]

  amount_args : Fields → Option (String × F × F × Option String)
  amount_args d = do
    channel ← text_arg "channel" d
    amount ← amount_arg "amount" d
    tolerance ← tolerance_arg d
    if only ("channel" ∷ "amount" ∷ "rel_tol" ∷ "thread_ts" ∷ []) d
        then some (channel, amount, tolerance, thread_arg d)
        else none

posted_args : Fields → Option (String × Option String)
posted_args d = do
  channel ← text_arg "channel" d
  if only ("channel" ∷ "thread_ts" ∷ []) d then some (channel, thread_arg d) else none

terms_args : Fields → Option (String × List String × Option String)
terms_args d = do
  channel ← text_arg "channel" d
  terms ← texts_arg "terms" d
  if only ("channel" ∷ "terms" ∷ "thread_ts" ∷ []) d
      then some (channel, terms, thread_arg d)
      else none

page_args : Fields → Option (String × String)
page_args d = do
  database ← text_arg "database" d
  phrase ← text_arg "title_contains" d
  if only ("database" ∷ "title_contains" ∷ []) d then some (database, phrase) else none

property_args : Fields → Option (String × String × String × Value)
property_args d = do
  database ← text_arg "database" d
  phrase ← text_arg "title_contains" d
  property ← text_arg "property" d
  value ← get "value" d
  if only ("database" ∷ "title_contains" ∷ "property" ∷ "value" ∷ []) d
      then some (database, phrase, property, value)
      else none

todos_args : Fields → Option (String × String × List String × ℕ)
todos_args d = do
  database ← text_arg "database" d
  phrase ← text_arg "title_contains" d
  terms ← texts_arg "terms" d
  least ← count_arg "min_todos" d
  if only ("database" ∷ "title_contains" ∷ "terms" ∷ "min_todos" ∷ []) d
      then some (database, phrase, terms, least)
      else none

activity_args : Fields → Option (String × String)
activity_args d = do
  contact ← text_arg "contact" d
  phrase ← text_arg "contains" d
  if only ("contact" ∷ "contains" ∷ []) d then some (contact, phrase) else none

module _ {F A : Type 0} where
  -- A validator of its bound arguments.
  unfoldable pub applied : (A → Check F) → (Fields → Option A) → Fields → Option (Check F)
  applied make args d = elim (args d) [ none ↦ none | some a ↦ some (make a) ]

module _ {F : Type 0} ⦃fl : Float F⦄ where
  -- VALIDATORS_DICT: the name, and the binding of its keyword arguments
  unfoldable pub validators_dict : Dict (Fields → Option (Check F))
  unfolding applied posted_args terms_args amount_args page_args property_args todos_args
      activity_args get
  validators_dict =
      ("slack_message_posted", applied (λ a. posted a.0 a.1) posted_args)
      ∷ ("message_mentions_terms", applied (λ a. mentions a.0 a.1 a.2) terms_args)
      ∷ ("message_excludes_terms", applied (λ a. excludes a.0 a.1 a.2) terms_args)
      ∷ ("message_mentions_amount", applied (λ a. states a.0 a.1 a.2 a.3) amount_args)
      ∷ ("notion_page_created", applied (λ a. page_created a.0 a.1) page_args)
      ∷ ("notion_property_equals", applied (λ a. property_equals a.0 a.1 a.2 a.3) property_args)
      ∷ ("notion_todos_mention", applied (λ a. todos_mention a.0 a.1 a.2 a.3) todos_args)
      ∷ ("crm_activity_logged", applied (λ a. activity_logged a.0 a.1) activity_args)
      ∷ []
