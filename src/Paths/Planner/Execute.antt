-- ===== src/Paths/Planner/Execute.antt =====
-- paths/planner_executor.py: the outputs of earlier steps in the arguments and the prompt of a step.
use agent_roi_console.Common.{
  ℕ, zero, suc, List, [], ◌∷◌, String, Option, none, some, join, append_text, str_eq, if◌then◌else◌,
}
use agent_roi_console.Common.Text.{split, read_digits, all_digits, strip}
use agent_roi_console.Json.{Value, Items, Fields, get, elements}
use agent_roi_console.Paths.{Result, done, stops, crashes, Piece, literal, placeholder, Services}
use agent_roi_console.Paths.Planner.{and_then, get_or, iterate}

abbrev nth : ℕ → List Value → Option Value
nth n [] = none
nth zero (v ∷ vs) = some v
nth (suc n) (v ∷ vs) = nth n vs

-- One part of a path, into a dict or a list.
unfoldable pub follow : String → Value → Option Value
unfolding get read_digits all_digits
follow part (Value.dict d) = get part d
follow part (Value.list vs) =
    if all_digits part then nth (read_digits 0 part) (elements vs) else none
follow part _ = none

module _ {A B : Type 0} where
  -- A lookup, and what the code does where it finds nothing.
  unfoldable pub found : Result B → Option A → (A → Result B) → Result B
  found missing none f = missing
  found missing (some a) f = f a

unfoldable pub follow_all : List String → Value → Result Value
unfolding follow found
follow_all [] v = done v
follow_all (part ∷ parts) v =
    if str_eq part ""
    then follow_all parts v
    else found
        (stops (record { reason = "unresolved_placeholder"; message = "not found in step output" }))
        (follow part v) (λ w. follow_all parts w)

-- `_lookup`; an output that is missing is a KeyError.
unfoldable pub lookup_output : Fields → String → String → Result Value
unfolding get split follow_all found
lookup_output outputs ref path = found crashes (get ref outputs) (λ v. follow_all (split 46 path) v)

-- `"\n\n".join`
abbrev pub paragraphs : List String → String
paragraphs [] = ""
paragraphs (p ∷ []) = p
paragraphs (p ∷ ps) = append_text p (append_text "\n\n" (paragraphs ps))

module _ {F W : Type 0} (services : Services F W) where
  abbrev pub text_of : Value → String
  text_of (Value.text s) = s
  text_of v = services.dumps v

  -- `PLACEHOLDER_RE.sub(substitute, value)`
  unfoldable pub substitute : Fields → List Piece → Result String
  unfolding lookup_output and_then
  substitute outputs [] = done ""
  substitute outputs (literal s ∷ ps) =
      and_then (substitute outputs ps) (λ rest. done (append_text s rest))
  substitute outputs (placeholder ref path ∷ ps) =
      and_then (lookup_output outputs ref path)
        (λ v. and_then (substitute outputs ps) (λ rest. done (append_text (text_of v) rest)))

  unfoldable pub resolve_text : Fields → String → Result Value
  unfolding substitute lookup_output strip and_then found
  resolve_text outputs s =
      found (and_then (substitute outputs (services.pieces s)) (λ t. done (Value.text t)))
        (services.whole (strip s)) (λ p. lookup_output outputs p.0 p.1)

  unfoldable mutual
    unfolding resolve_text and_then

    pub resolve_placeholders : Fields → Value → Result Value
    resolve_placeholders outputs (Value.text s) = resolve_text outputs s
    resolve_placeholders outputs (Value.dict d) =
        and_then (resolve_fields outputs d) (λ e. done (Value.dict e))
    resolve_placeholders outputs (Value.list vs) =
        and_then (resolve_items outputs vs) (λ ws. done (Value.list ws))
    resolve_placeholders outputs Value.null = done Value.null
    resolve_placeholders outputs (Value.boolean b) = done (Value.boolean b)
    resolve_placeholders outputs (Value.number n) = done (Value.number n)

    pub resolve_items : Fields → Items → Result Items
    resolve_items outputs Items.nil = done Items.nil
    resolve_items outputs (Items.cons v vs) =
        and_then (resolve_placeholders outputs v)
          (λ w. and_then (resolve_items outputs vs) (λ ws. done (Items.cons w ws)))

    pub resolve_fields : Fields → Fields → Result Fields
    resolve_fields outputs Fields.empty = done Fields.empty
    resolve_fields outputs (Fields.field k v d) =
        and_then (resolve_placeholders outputs v)
          (λ w. and_then (resolve_fields outputs d) (λ e. done (Fields.field k w e)))

  -- The parts of `input_text`: the outputs of the named steps.
  unfoldable pub input_parts : Fields → List Value → Result (List String)
  unfolding and_then get found
  input_parts outputs [] = done []
  input_parts outputs (Value.text ref ∷ vs) = found crashes (get ref outputs) (λ v.
      and_then (input_parts outputs vs)
        (λ rest. done (join ("Output of " ∷ ref ∷ ":\n" ∷ services.dumps v ∷ []) ∷ rest)))
  input_parts outputs (_ ∷ vs) = crashes

  unfoldable pub input_text : Fields → Fields → Result String
  unfolding input_parts and_then found
  input_text outputs step =
      found crashes (iterate (get_or (Value.list Items.nil) "inputs" step))
        (λ refs. and_then (input_parts outputs refs) (λ ps. done (paragraphs ps)))
