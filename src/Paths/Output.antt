-- ===== src/Paths/Output.antt =====
-- runner/llm.py: the JSON of a model's answer, behind code fences and prose.
use agent_roi_console.Common.{ℕ, suc, String, Option, none, some, leb, str_eq, if◌then◌else◌}
use agent_roi_console.Common.Text.{strip, find, rfind, take_text, drop_text}
use agent_roi_console.Json.{Value}
use agent_roi_console.Paths.{Services}

-- `cleaned[start : end + 1]`, `none` where there are no braces around anything
unfoldable pub braced : Option ℕ → Option ℕ → String → Option String
unfolding take_text drop_text
braced (some start) (some end) cleaned =
    if leb end start then none else some (drop_text start (take_text (suc end) cleaned))
braced _ _ cleaned = none

module _ {F W : Type 0} where
  -- The second attempt, on the text between the outer braces: `{` is 123 and `}` is 125.
  unfoldable pub between_braces : Services F W → String → Option Value
  unfolding braced find rfind
  between_braces services cleaned = elim (braced (find 123 cleaned) (rfind 125 cleaned) cleaned) [
    | none ↦ none
    | some t ↦ services.loads t
  ]

  abbrev pub or_braces : Services F W → String → Option Value → Option Value
  or_braces services cleaned (some v) = some v
  or_braces services cleaned none = between_braces services cleaned

  -- `parse_json_output`, `none` for its ValueError
  unfoldable pub parse_json_output : Services F W → Option String → Option Value
  unfolding between_braces strip
  parse_json_output services none = none
  parse_json_output services (some text) =
      let cleaned = strip (services.unfence (strip text)) in
      if str_eq text "" then none else or_braces services cleaned (services.loads cleaned)
