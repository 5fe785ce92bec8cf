-- ===== src/Paths/Planner/Outputs.antt =====
-- paths/planner_executor.py: where the outputs of the earlier steps cover what a step refers to, no
-- lookup of an output raises a KeyError.
use agent_roi_console.Common.{
  suc, ◌≡◌, refl, ◌∙◌, true, false, Bool-cases, Option-cases, inl, inr, List, [], ◌∷◌, ◌++◌, length,
  String, Option, none, some, str_eq, eq_iff, arith, if◌then◌else◌,
}
use agent_roi_console.Common.Text.{strip, split}
use agent_roi_console.Json.{Value, Items, Fields, get, keys, with_field}
use agent_roi_console.Workflows.{is_in}
use agent_roi_console.Paths.{Result, done, stops, crashes, Piece, literal, placeholder, Services}
use agent_roi_console.Paths.Total.{is_crash}
use agent_roi_console.Paths.Planner.{and_then, refs_of, all_in}
use agent_roi_console.Paths.Planner.Execute.{
  found, follow, follow_all, lookup_output, substitute, resolve_text, resolve_placeholders,
  resolve_items, resolve_fields,
}

module _ {A B : Type 0} where
  pub and_then-is_crash :
      (r : Result A) (f : A → Result B)
      → is_crash r ≡ false
      → ((a : A) → is_crash (f a) ≡ false)
      → is_crash (and_then r f) ≡ false
  unfolding and_then
  and_then-is_crash (done a) f h k = k a
  and_then-is_crash (stops e) f h k = refl
  and_then-is_crash crashes f h k = absurd (ground arith)

pub is_in-keys : (k : String) (d : Fields) → is_in k (keys d) ≡ false → get k d ≡ none
unfolding keys get
is_in-keys k Fields.empty h = refl
is_in-keys k (Fields.field j v d) h = ground (arith, is_in-keys k d)

pub get-keys : (k : String) (d : Fields) → get k d ≡ none → is_in k (keys d) ≡ false
unfolding keys get
get-keys k Fields.empty h = refl
get-keys k (Fields.field j v d) h = ground (arith, get-keys k d)

pub is_in-with_field :
    (k j : String) (v : Value) (d : Fields)
    → is_in k (keys (with_field j v d)) ≡ (if str_eq j k then true else is_in k (keys d))
unfolding keys with_field
is_in-with_field k j v Fields.empty = refl
is_in-with_field k j v (Fields.field i w d) =
    ground (arith, eq_iff i j, eq_iff j k, eq_iff i k, is_in-with_field k j v d)

pub length-with_field :
    (k : String) (v : Value) (d : Fields)
    → is_in k (keys d) ≡ false
    → length (keys (with_field k v d)) ≡ suc (length (keys d))
unfolding keys with_field
length-with_field k v Fields.empty h = refl
length-with_field k v (Fields.field i w d) h = ground (arith, length-with_field k v d)

-- Every step of `seen` has an output.
abbrev pub Covers : Fields → List String → Type 0
Covers outputs seen = (ref : String) → is_in ref (keys outputs) ≡ is_in ref seen

module _ {A B : Type 0} where
  pub found-is_crash :
      (missing : Result B) (o : Option A) (f : A → Result B)
      → is_crash missing ≡ false
      → ((a : A) → is_crash (f a) ≡ false)
      → is_crash (found missing o f) ≡ false
  unfolding found
  found-is_crash missing none f h k = h
  found-is_crash missing (some a) f h k = k a

follow_all-is_crash : (parts : List String) (v : Value) → is_crash (follow_all parts v) ≡ false
unfolding follow_all
follow_all-is_crash [] v = refl
follow_all-is_crash (part ∷ parts) v = elim (Bool-cases (str_eq part "")) [
  | inl h ↦ rw h (follow_all-is_crash parts v)
  | inr h ↦
      rw h (
        found-is_crash (stops _) (follow part v) (follow_all parts) refl
          (follow_all-is_crash parts))
]

-- A lookup in a dict that has the key.
pub found_key :
    {B : Type 0} (outputs : Fields) (ref : String) (f : Value → Result B)
    → is_in ref (keys outputs) ≡ true
    → ((v : Value) → is_crash (f v) ≡ false)
    → is_crash (found crashes (get ref outputs) f) ≡ false
unfolding found
found_key outputs ref f h k = elim (Option-cases (get ref outputs)) [
  | inl e ↦ absurd (cc (h, get-keys ref outputs e))
  | inr e ↦ rw e.1 (k e.0)
]

lookup_output-is_crash :
    (outputs : Fields) (seen : List String) (ref path : String)
    → Covers outputs seen
    → is_in ref seen ≡ true
    → is_crash (lookup_output outputs ref path) ≡ false
unfolding lookup_output
lookup_output-is_crash outputs seen ref path c h =
    found_key outputs ref _ (c ref ∙ h) (follow_all-is_crash (split 46 path))

module _ {F W : Type 0} (services : Services F W) where
  -- The steps that the placeholders of a text name.
  unfoldable pub text_refs : String → List String
  text_refs s = elim (services.whole (strip s)) [
    | some p ↦ p.0 ∷ []
    | none ↦ refs_of (services.pieces s)
  ]

  unfoldable mutual
    unfolding text_refs

    pub value_refs : Value → List String
    value_refs (Value.text s) = text_refs s
    value_refs (Value.dict d) = field_refs d
    value_refs (Value.list vs) = item_refs vs
    value_refs Value.null = []
    value_refs (Value.boolean b) = []
    value_refs (Value.number n) = []

    pub item_refs : Items → List String
    item_refs Items.nil = []
    item_refs (Items.cons v vs) = value_refs v ++ item_refs vs

    pub field_refs : Fields → List String
    field_refs Fields.empty = []
    field_refs (Fields.field k v d) = value_refs v ++ field_refs d

  all_in-append :
      (seen xs ys : List String)
      → all_in seen (xs ++ ys) ≡ true
      → (all_in seen xs ≡ true) × (all_in seen ys ≡ true)
  all_in-append seen [] ys h = (refl, h)
  all_in-append seen (x ∷ xs) ys h = ground (arith, all_in-append seen xs ys)

  substitute-is_crash :
      (outputs : Fields) (seen : List String) (ps : List Piece)
      → Covers outputs seen
      → all_in seen (refs_of ps) ≡ true
      → is_crash (substitute services outputs ps) ≡ false
  unfolding substitute
  substitute-is_crash outputs seen [] c h = refl
  substitute-is_crash outputs seen (literal s ∷ ps) c h =
      and_then-is_crash _ _ (substitute-is_crash outputs seen ps c h) (λ rest. refl)
  substitute-is_crash outputs seen (placeholder ref path ∷ ps) c h =
      and_then-is_crash _ _ (lookup_output-is_crash outputs seen ref path c (ground arith)) (λ v.
        and_then-is_crash _ _ (substitute-is_crash outputs seen ps c (ground arith)) (λ rest. refl))

  resolve_text-is_crash :
      (outputs : Fields) (seen : List String) (s : String)
      → Covers outputs seen
      → all_in seen (text_refs s) ≡ true
      → is_crash (resolve_text services outputs s) ≡ false
  unfolding resolve_text text_refs found
  resolve_text-is_crash outputs seen s c h = elim (Option-cases (services.whole (strip s))) [
    | inl e ↦ rw e (
        and_then-is_crash _ _
          (substitute-is_crash outputs seen (services.pieces s) c (ground arith)) (λ t. refl))
    | inr e ↦ rw e.1 (lookup_output-is_crash outputs seen e.0.0 e.0.1 c (ground arith))
  ]

  mutual
    unfolding resolve_placeholders value_refs

    pub resolve-is_crash :
        (outputs : Fields) (seen : List String) (v : Value)
        → Covers outputs seen
        → all_in seen (value_refs v) ≡ true
        → is_crash (resolve_placeholders services outputs v) ≡ false
    resolve-is_crash outputs seen (Value.text s) c h = resolve_text-is_crash outputs seen s c h
    resolve-is_crash outputs seen (Value.dict d) c h =
        and_then-is_crash _ _ (resolve_fields-is_crash outputs seen d c h) (λ e. refl)
    resolve-is_crash outputs seen (Value.list vs) c h =
        and_then-is_crash _ _ (resolve_items-is_crash outputs seen vs c h) (λ ws. refl)
    resolve-is_crash outputs seen Value.null c h = refl
    resolve-is_crash outputs seen (Value.boolean b) c h = refl
    resolve-is_crash outputs seen (Value.number n) c h = refl

    resolve_items-is_crash :
        (outputs : Fields) (seen : List String) (vs : Items)
        → Covers outputs seen
        → all_in seen (item_refs vs) ≡ true
        → is_crash (resolve_items services outputs vs) ≡ false
    resolve_items-is_crash outputs seen Items.nil c h = refl
    resolve_items-is_crash outputs seen (Items.cons v vs) c h =
        let both = all_in-append seen (value_refs v) (item_refs vs) h in
        and_then-is_crash _ _ (resolve-is_crash outputs seen v c both.0) (λ w.
          and_then-is_crash _ _ (resolve_items-is_crash outputs seen vs c both.1) (λ ws. refl))

    resolve_fields-is_crash :
        (outputs : Fields) (seen : List String) (d : Fields)
        → Covers outputs seen
        → all_in seen (field_refs d) ≡ true
        → is_crash (resolve_fields services outputs d) ≡ false
    resolve_fields-is_crash outputs seen Fields.empty c h = refl
    resolve_fields-is_crash outputs seen (Fields.field k v d) c h =
        let both = all_in-append seen (value_refs v) (field_refs d) h in
        and_then-is_crash _ _ (resolve-is_crash outputs seen v c both.0)
          (λ w. and_then-is_crash _ _ (resolve_fields-is_crash outputs seen d c both.1) (λ e. refl))
