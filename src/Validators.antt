-- ===== src/Validators.antt =====
-- validators/state.py and validators/library.py: the checks on the end state of a run. Unicode
-- normalization, case folding and the search for amounts (AMOUNT_RE) are parameters. A result is kept
-- without its text; arguments have the types of their annotations.
pub mod Checks
pub mod Binding
pub mod Engine
pub mod Names
pub mod Declared
use agent_roi_console.Common.{
  ℕ, ◌≤◌, Bool, true, false, not, ◌&&◌, ◌||◌, List, [], ◌∷◌, map, keep_if, length, String, Option,
  none, some, append_text, str_eq, leb, ◌==◌, if◌then◌else◌,
}
use agent_roi_console.Common.Text.{is_space, is_blank, strip, has_text, take_text}
use Prim.Native.Char.{code}
use agent_roi_console.Json.{Value, Items, Fields, get, elements}
use agent_roi_console.Workflows.{is_in}
use agent_roi_console.Workflows.Transforms.{str_of}
use agent_roi_console.Float.{Float, float, fle, flt, ◌⊖◌, ◌⊗◌}

pub record SlackMessage : Type 0 where
  pub channel : String
  pub ts : String
  pub message_text : String
  pub o_bot : Bool
  pub thread_ts : Option String

pub record NotionBlock : Type 0 where
  pub block_type : String
  pub block_text : String

pub record NotionPage : Type 0 where
  pub database : String
  pub title : String
  pub properties : Fields
  pub blocks : List NotionBlock

pub record CrmActivity : Type 0 where
  pub contact_id : String
  pub note : String

pub record EndState : Type 0 where
  pub slack_messages : List SlackMessage
  pub notion_pages : List NotionPage
  pub crm_activities : List CrmActivity

pub record ValidatorResult : Type 0 where
  pub name : String
  pub passed : Bool

-- What the checks take from `unicodedata`, `re` and `str`.
pub record Texts : Type 0 where
  pub nfkc : String → String
  pub casefold : String → String
  -- `AMOUNT_RE.findall`: the number and the suffix of each match
  pub find_amounts : String → List (String × String)
  pub to_str : Value → String

-- PUNCTUATION_MAP and the replacements behind it, of one character by its code point
abbrev plain : ℕ → String → String
plain c s =
    if c == 8216 || c == 8217
    then "'"
    else if c == 8220 || c == 8221
    then "\""
    else if c == 42 || c == 96
    then ""
    else if c == 8211 || c == 8212 || c == 160 || c == 95 || c == 45
    then " "
    else s

unfoldable pub plain_text : String → String
plain_text String.[] = ""
plain_text (String.◌∷◌ c s) = append_text (plain (code c) (String.◌∷◌ c "")) (plain_text s)

abbrev pub starts_blank : String → Bool
starts_blank String.[] = false
starts_blank (String.◌∷◌ c s) = code c == 32

-- `re.sub(r"\s+", " ", text)`
unfoldable pub collapse : String → String
collapse String.[] = ""
collapse (String.◌∷◌ c s) =
    let rest = collapse s in
    if is_space (code c)
    then (if starts_blank rest then rest else append_text " " rest)
    else String.◌∷◌ c rest

module _ (texts : Texts) where
  unfoldable pub normalize_text : String → String
  unfolding plain_text collapse strip
  normalize_text text = texts.casefold (strip (collapse (plain_text (texts.nfkc text))))

  unfoldable pub contains_term : String → String → Bool
  unfolding normalize_text has_text
  contains_term text term = has_text (normalize_text term) (normalize_text text)

  abbrev pub any_contains : List String → String → Bool
  any_contains [] term = false
  any_contains (x ∷ xs) term = if contains_term x term then true else any_contains xs term

-- `thread_ts or None`
abbrev pub thread_of : Option String → Option String
thread_of none = none
thread_of (some t) = if str_eq t "" then none else some t

abbrev pub same_thread : Option String → Option String → Bool
same_thread none none = true
same_thread (some s) (some t) = str_eq s t
same_thread _ _ = false

-- `_bot_messages`
unfoldable pub bot_messages : EndState → String → Option String → List SlackMessage
bot_messages state channel thread =
    keep_if
      (λ m.
        m.o_bot
        && str_eq m.channel channel
        && same_thread (thread_of m.thread_ts) (thread_of thread))
      state.slack_messages

abbrev pub is_empty {ℓ} : {A : Type ℓ} → List A → Bool
is_empty [] = true
is_empty (x ∷ xs) = false

-- `_matching_pages`
unfoldable pub matching_pages : Texts → EndState → String → String → List NotionPage
unfolding contains_term
matching_pages texts state database phrase =
    keep_if (λ p. str_eq p.database database && contains_term texts p.title phrase)
      state.notion_pages

module _ {F : Type 0} ⦃fl : Float F⦄ where
  -- `max(messages, key=lambda m: float(m.ts))`: the first of the latest, `none` for a ValueError
  unfoldable pub latest : SlackMessage → F → List SlackMessage → Option SlackMessage
  latest best at [] = some best
  latest best at (m ∷ ms) = elim (fl.parse m.ts) [
    | none ↦ none
    | some t ↦ if flt at t then latest m t ms else latest best at ms
  ]
