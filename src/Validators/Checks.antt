-- ===== src/Validators/Checks.antt =====
-- validators/library.py: the validators themselves. `none` is a ValueError or TypeError of one.
use agent_roi_console.Common.{
  ℕ, Bool, true, false, not, ◌&&◌, List, [], ◌∷◌, map, keep_if, length, String, Option, none, some,
  str_eq, leb, ◌==◌, if◌then◌else◌,
}
use Prim.Native.Char.{code}
use agent_roi_console.Common.Text.{take_text}
use agent_roi_console.Json.{Value, get, elements}
use agent_roi_console.Workflows.{is_in}
use agent_roi_console.Workflows.Transforms.{str_of}
use agent_roi_console.Float.{Float, float, fle, flt, ◌⊖◌, ◌⊗◌}
use agent_roi_console.Validators.{
  SlackMessage, NotionPage, CrmActivity, EndState, ValidatorResult, Texts, normalize_text,
  contains_term, any_contains, bot_messages, is_empty, matching_pages, latest,
}

abbrev pub result_of : String → Bool → ValidatorResult
result_of name passed = record { name = name; passed = passed }

unfoldable pub slack_message_posted : EndState → String → Option String → ValidatorResult
unfolding bot_messages
slack_message_posted state channel thread =
    result_of "slack_message_posted" (leb 1 (length (bot_messages state channel thread)))

-- `s.replace(",", "")`
abbrev without_commas : String → String
without_commas String.[] = ""
without_commas (String.◌∷◌ c s) =
    let rest = without_commas s in if code c == 44 then rest else String.◌∷◌ c rest

-- The property of a page as it is compared: a set of texts, a text, or nothing.
pub data Normalized : Type 0 where
  absent : Normalized
  one_text : String → Normalized
  text_set : List String → Normalized

abbrev subset : List String → List String → Bool
subset [] ys = true
subset (x ∷ xs) ys = if is_in x ys then subset xs ys else false

abbrev pub same_property : Normalized → Normalized → Bool
same_property absent absent = true
same_property (one_text s) (one_text t) = str_eq s t
same_property (text_set xs) (text_set ys) = subset xs ys && subset ys xs
same_property _ _ = false

module _ (texts : Texts) where
  abbrev text_of : Value → String
  text_of v = str_of texts.to_str v

  -- `_normalize_property`
  unfoldable pub normalize_property : Value → Normalized
  unfolding normalize_text get take_text
  normalize_property (Value.list vs) =
      text_set (map (λ v. normalize_text texts (text_of v)) (elements vs))
  normalize_property (Value.dict d) = elim (get "start" d) [
    | some v ↦ one_text (normalize_text texts (take_text 10 (text_of v)))
    | none ↦ one_text (normalize_text texts (text_of (Value.dict d)))
  ]
  normalize_property Value.null = absent
  normalize_property v = one_text (normalize_text texts (text_of v))

  unfoldable pub notion_page_created : EndState → String → String → ValidatorResult
  unfolding matching_pages
  notion_page_created state database phrase =
      result_of "notion_page_created" (length (matching_pages texts state database phrase) == 1)

  abbrev property_of : List NotionPage → (NotionPage → Bool) → Bool
  property_of (p ∷ []) test = test p
  property_of _ test = false

  unfoldable pub notion_property_equals :
      EndState → String → String → String → Value → ValidatorResult
  unfolding matching_pages normalize_property get
  notion_property_equals state database phrase property value = result_of "notion_property_equals" (
      property_of (matching_pages texts state database phrase) (λ p.
        same_property
          (normalize_property (elim (get property p.properties) [ none ↦ Value.null | some v ↦ v ]))
          (normalize_property value)))

  abbrev todo_texts : NotionPage → List String
  todo_texts p = map (λ b. b.block_text) (keep_if (λ b. str_eq b.block_type "to_do") p.blocks)

  unfoldable pub notion_todos_mention :
      EndState → String → String → List String → ℕ → ValidatorResult
  unfolding matching_pages contains_term
  notion_todos_mention state database phrase terms min_todos = result_of "notion_todos_mention" (
      property_of (matching_pages texts state database phrase) (λ p.
        leb min_todos (length (todo_texts p))
        && is_empty (keep_if (λ t. not (any_contains texts (todo_texts p) t)) terms)))

  abbrev pub mentioning : EndState → String → List CrmActivity
  mentioning state phrase = keep_if (λ a. contains_term texts a.note phrase) state.crm_activities

  unfoldable pub crm_activity_logged : EndState → String → String → ValidatorResult
  unfolding contains_term
  crm_activity_logged state contact phrase =
      let matching = mentioning state phrase in
      result_of "crm_activity_logged" (
        not (is_empty (keep_if (λ a. str_eq a.contact_id contact) matching))
        && is_empty (keep_if (λ a. not (str_eq a.contact_id contact)) matching))

abbrev pub on_latest :
    String → Option (Option SlackMessage) → (String → Bool) → Option ValidatorResult
on_latest name none test = none
on_latest name (some none) test = some (result_of name false)
on_latest name (some (some m)) test = some (result_of name (test m.message_text))

module _ (F : Type 0) ⦃fl : Float F⦄ (texts : Texts) where
  -- `_latest_bot_message`, `none` for the ValueError of a time that is no number
  unfoldable pub latest_bot_message :
      EndState → String → Option String → Option (Option SlackMessage)
  unfolding bot_messages latest
  latest_bot_message state channel thread = elim (bot_messages state channel thread) [
    | [] ↦ some none
    | m ∷ ms ↦ elim (fl.parse m.ts) [
      | none ↦ none
      | some t ↦ elim (latest m t ms) [ none ↦ none | some best ↦ some (some best) ]
    ]
  ]

  unfoldable pub message_mentions_terms :
      EndState → String → List String → Option String → Option ValidatorResult
  unfolding latest_bot_message contains_term
  message_mentions_terms state channel terms thread =
      on_latest "message_mentions_terms" (latest_bot_message state channel thread)
        (λ text. is_empty (keep_if (λ t. not (contains_term texts text t)) terms))

  unfoldable pub message_excludes_terms :
      EndState → String → List String → Option String → Option ValidatorResult
  unfolding latest_bot_message contains_term
  message_excludes_terms state channel terms thread =
      on_latest "message_excludes_terms" (latest_bot_message state channel thread)
        (λ text. is_empty (keep_if (contains_term texts text) terms))

  abbrev absolute : F → F
  absolute a = if flt a (float 0) then float 0 ⊖ a else a

  abbrev multiplier : String → F
  multiplier suffix =
      if str_eq suffix "k"
      then float 1000
      else if str_eq suffix "K"
      then float 1000
      else if str_eq suffix "m"
      then float 1000000
      else if str_eq suffix "M"
      then float 1000000
      else float 1

  -- `any(abs(a - amount) <= rel_tol * abs(amount))` over `extract_amounts`, which skips what is no number
  unfoldable pub any_amount : F → F → List (String × String) → Bool
  any_amount amount rel_tol [] = false
  any_amount amount rel_tol ((number, suffix) ∷ found) =
      let later = any_amount amount rel_tol found in
      elim (fl.parse (without_commas number)) [
        | none ↦ later
        | some v ↦
            if fle (absolute ((v ⊗ multiplier suffix) ⊖ amount)) (rel_tol ⊗ absolute amount)
            then true
            else later
      ]

  unfoldable pub message_mentions_amount :
      EndState → String → F → F → Option String → Option ValidatorResult
  unfolding latest_bot_message any_amount
  message_mentions_amount state channel amount rel_tol thread =
      on_latest "message_mentions_amount" (latest_bot_message state channel thread)
        (λ text. any_amount amount rel_tol (texts.find_amounts text))
