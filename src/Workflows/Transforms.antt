-- ===== src/Workflows/Transforms.antt =====
-- workflows/transforms.py: the deterministic transforms that a step may name. `str` of a value that
-- is no text is a parameter.
use agent_roi_console.Common.{
  Bool, true, false, not, ◌||◌, List, [], ◌∷◌, ◌++◌, map, String, Option, none, some, join,
  append_text, str_eq, if◌then◌else◌,
}
use agent_roi_console.Json.{Value, Items, Fields, get, elements}

abbrev pub decisions_heading : String
decisions_heading = "Decisions"

abbrev pub action_items_heading : String
action_items_heading = "Action items"

-- `str(v)`, given what it is for a value that is no text
abbrev pub str_of : (Value → String) → Value → String
str_of to_str (Value.text s) = s
str_of to_str v = to_str v

-- The truth of a value.
unfoldable pub is_true : Value → Bool
is_true Value.null = false
is_true (Value.boolean b) = b
is_true (Value.number n) = not (str_eq n "0" || str_eq n "0.0" || str_eq n "-0.0")
is_true (Value.text s) = not (str_eq s "")
is_true (Value.list Items.nil) = false
is_true (Value.list (Items.cons v vs)) = true
is_true (Value.dict Fields.empty) = false
is_true (Value.dict (Fields.field k v d)) = true

abbrev pub block : String → String → Value
block kind text =
    Value.dict
      (Fields.field "type" (Value.text kind) (Fields.field "text" (Value.text text) Fields.empty))

abbrev pub todo_block : String → Value
todo_block text = Value.dict (
    Fields.field "type" (Value.text "to_do") (
      Fields.field "text" (Value.text text)
        (Fields.field "checked" (Value.boolean false) Fields.empty)))

-- `item.get(k, "")`
abbrev pub get_or_empty : String → Fields → Value
get_or_empty k d = elim (get k d) [ none ↦ Value.text "" | some v ↦ v ]

abbrev pub item_text : (Value → String) → Fields → String
item_text to_str item =
    let due = get_or_empty "due" item in
    append_text
      (join (
        str_of to_str (get_or_empty "owner" item)
        ∷ ": "
        ∷ str_of to_str (get_or_empty "task" item)
        ∷ []))
      (if is_true due then join (" (due " ∷ str_of to_str due ∷ ")" ∷ []) else "")

abbrev pub then_block : Value → Option (List Value) → Option (List Value)
then_block b none = none
then_block b (some bs) = some (b ∷ bs)

-- `none` is the ValueError of an item that is no object.
unfoldable pub todo_blocks : (Value → String) → List Value → Option (List Value)
unfolding is_true get
todo_blocks to_str [] = some []
todo_blocks to_str (Value.dict item ∷ items) =
    then_block (todo_block (item_text to_str item)) (todo_blocks to_str items)
todo_blocks to_str (_ ∷ items) = none

abbrev pub after_heading : List Value → Option (List Value) → Option (List Value)
after_heading before none = none
after_heading before (some todos) = some (before ++ block "heading_2" action_items_heading ∷ todos)

unfoldable pub meeting_blocks : (Value → String) → Value → Value → Option (List Value)
unfolding todo_blocks
meeting_blocks to_str (Value.list decisions) (Value.list action_items) =
    after_heading
      (block "heading_2" decisions_heading
        ∷ map (λ d. block "paragraph" (str_of to_str d)) (elements decisions))
      (todo_blocks to_str (elements action_items))
meeting_blocks to_str _ _ = none

abbrev pub items_of : List Value → Items
items_of [] = Items.nil
items_of (v ∷ vs) = Items.cons v (items_of vs)

-- The keyword arguments of `meeting_blocks`, both of them and no other; else a TypeError.
abbrev meeting_args : Option Value → Option Value → Fields → Option (Value × Value)
meeting_args (some d) (some a) (Fields.field j v (Fields.field k w Fields.empty)) = some (d, a)
meeting_args _ _ _ = none

-- `run_transform`, where `none` is the KeyError, TypeError or ValueError that its caller catches
unfoldable pub run_transform : (Value → String) → String → Fields → Option Value
unfolding meeting_blocks get
run_transform to_str name args =
    if str_eq name "meeting_blocks"
    then elim (meeting_args (get "decisions" args) (get "action_items" args) args) [
      | none ↦ none
      | some p ↦ elim (meeting_blocks to_str p.0 p.1) [
        | none ↦ none
        | some bs ↦ some (Value.list (items_of bs))
      ]
    ]
    else none
