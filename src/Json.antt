-- ===== src/Json.antt =====
-- Values of the standard library's `json`: what `json.loads` returns and `json.dumps` takes. A number
-- is kept as the text that `json.dumps` writes for it.
use agent_roi_console.Common.{
  Bool, true, false, List, [], ◌∷◌, String, Option, none, some, str_eq, if◌then◌else◌,
}

mutual
  pub data Value : Type 0 where
    null : Value
    boolean : Bool → Value
    number : String → Value
    text : String → Value
    list : Items → Value
    dict : Fields → Value

  pub data Items : Type 0 where
    nil : Items
    cons : Value → Items → Items

  pub data Fields : Type 0 where
    empty : Fields
    field : String → Value → Fields → Fields

-- `d.get(k)`
unfoldable pub get : String → Fields → Option Value
get k empty = none
get k (field j v d) = if str_eq j k then some v else get k d

-- `{**d, k: v}`
unfoldable pub with_field : String → Value → Fields → Fields
with_field k v empty = field k v empty
with_field k v (field j w d) = if str_eq j k then field k v d else field j w (with_field k v d)

-- The values of a list.
abbrev pub elements : Items → List Value
elements nil = []
elements (cons v vs) = v ∷ elements vs

-- `v == True`, which holds of the numbers 1 and 1.0 too.
abbrev pub equals_true : Value → Bool
equals_true (boolean b) = b
equals_true (number n) = if str_eq n "1" then true else str_eq n "1.0"
equals_true _ = false

-- The keys of a dict, and their number.
unfoldable pub keys : Fields → List String
keys empty = []
keys (field k v d) = k ∷ keys d
