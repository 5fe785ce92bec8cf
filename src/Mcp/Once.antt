-- ===== src/Mcp/Once.antt =====
-- mcp_servers/common.py: what holds in every state that the concurrent calls of `idempotent_write`
-- reach: a key has at most one owner, and its row is the owner's.
use agent_roi_console.Common.{
  ℕ, ◌+◌, ◌≡◌, refl, sym, subst, ◌⊎◌, inl, inr, Bool, true, false, Bool-cases, List, [], ◌∷◌, ◌++◌,
  String, Option, none, some, All, str_eq, eq_iff, arith, if◌then◌else◌,
}
use agent_roi_console.Common.Dict.{Dict, contains}
use agent_roi_console.Json.{Fields}
use agent_roi_console.Mcp.{Row, Phase, Writer, System, result, pending_marker, is_pending}

abbrev pub has_row : String → Dict Row → ℕ
has_row k table = if contains k table then 1 else 0

marker-is_pending : is_pending pending_marker ≡ true
marker-is_pending = refl

not_replayed :
    (r : Fields) (o : Option Fields)
    → o ≡ some pending_marker
    → (o ≡ some r) × (is_pending r ≡ false)
    → ⊥
not_replayed r o h a = ground (arith, marker-is_pending)

module _ {F : Type 0} where
  -- A call owns its key from its claim on, unless its write fails.
  abbrev pub is_owner : Phase F → Bool
  is_owner Phase.writing = true
  is_owner (Phase.completing r) = true
  is_owner Phase.releasing = true
  is_owner (Phase.written r) = true
  is_owner _ = false

  abbrev pub owned : String → Writer F → ℕ
  owned k w = if str_eq w.key k then (if is_owner w.phase then 1 else 0) else 0

  unfoldable pub owners : String → List (Writer F) → ℕ
  owners k [] = 0
  owners k (w ∷ ws) = owned k w + owners k ws

  -- What the row of a call's key holds, by where the call stands.
  abbrev pub AgreesIn : Phase F → Option Fields → Type 0
  AgreesIn Phase.writing o = o ≡ some pending_marker
  AgreesIn (Phase.completing r) o = o ≡ some pending_marker
  AgreesIn Phase.releasing o = o ≡ some pending_marker
  AgreesIn (Phase.written r) o = o ≡ some r
  AgreesIn (Phase.replayed r) o = (o ≡ some r) × (is_pending r ≡ false)
  AgreesIn _ o = Unit

  abbrev pub Agrees : Dict Row → Writer F → Type 0
  Agrees table w = AgreesIn w.phase (result w.key table)

  -- `base` counts the rows that no call of the system made.
  pub record IsOnce (base : String → ℕ) (s : System F) : Type 0 where
    pub owner_iff : (k : String) → owners k s.writers + base k ≡ has_row k s.table
    pub agree : All (Agrees s.table) s.writers

  pub owners-append :
      (k : String) (xs ys : List (Writer F)) → owners k (xs ++ ys) ≡ owners k xs + owners k ys
  unfolding owners
  owners-append k [] ys = omega arith
  owners-append k (x ∷ xs) ys = omega (arith, owners-append k xs ys)

  -- The phase does not matter where the key is another, or where the row is free or pending and the
  -- call does not own it.
  AgreesIn-free :
      (p : Phase F) (o o' : Option Fields)
      → is_owner p ≡ false
      → (o ≡ none) ⊎ (o ≡ some pending_marker)
      → AgreesIn p o
      → AgreesIn p o'
  AgreesIn-free Phase.claiming o o' f h a = tt
  AgreesIn-free (Phase.waiting d) o o' f h a = tt
  AgreesIn-free Phase.writing o o' f h a = absurd (ground arith)
  AgreesIn-free (Phase.completing r) o o' f h a = absurd (ground arith)
  AgreesIn-free Phase.releasing o o' f h a = absurd (ground arith)
  AgreesIn-free (Phase.written r) o o' f h a = absurd (ground arith)
  AgreesIn-free (Phase.replayed r) o o' f (inl h) a = absurd (cc (h, a.0))
  AgreesIn-free (Phase.replayed r) o o' f (inr h) a = absurd (not_replayed r o h a)
  AgreesIn-free (Phase.failed e) o o' f h a = tt

  -- A statement of the call `w`, on a row that is free or its own, leaves what the others rely on.
  pub others-Agrees :
      (k : String) (t t' : Dict Row)
      → ((j : String) → str_eq k j ≡ false → result j t' ≡ result j t)
      → (result k t ≡ none) ⊎ (result k t ≡ some pending_marker)
      → (ws : List (Writer F)) → owners k ws ≡ 0
      → All (Agrees t) ws
      → All (Agrees t') ws
  unfolding owners
  others-Agrees k t t' frame free [] z a = tt
  others-Agrees k t t' frame free (w ∷ ws) z a = (
    elim (Bool-cases (str_eq w.key k)) [
      | inl e ↦
          AgreesIn-free w.phase (result w.key t) (result w.key t') (ground arith)
            (subst (λ j. (result j t ≡ none) ⊎ (result j t ≡ some pending_marker))
              (sym ((eq_iff w.key k).0 e)) free)
            a.0
      | inr e ↦
          subst (AgreesIn w.phase)
            (sym (frame w.key (ground (arith, eq_iff w.key k, eq_iff k w.key)))) a.0
    ],
    others-Agrees k t t' frame free ws (omega arith) a.1,
  )
