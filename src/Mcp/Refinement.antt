-- ===== src/Mcp/Refinement.antt =====
-- mcp_servers/common.py: the table of keys seen as a map that takes only first results, and how the
-- steps of concurrent calls change it.
use agent_roi_console.Common.{
  ℕ, ◌≡◌, refl, inl, inr, true, false, Bool-cases, ◌∷◌, String, Option, none, some, All-split,
  str_eq, eq_iff, arith, if◌then◌else◌,
}
use agent_roi_console.Common.Dict.{Dict, contains, remove}
use agent_roi_console.Json.{Fields}
use agent_roi_console.Float.{Float, flt}
use agent_roi_console.Mcp.{
  Row, Phase, Writer, Input, System, Step, step_of, advance, claim, claimed_row, result, complete,
  pending_marker, is_pending,
}
use agent_roi_console.Mcp.Table.{result-insert, result-remove, result-complete, contains-result}
use agent_roi_console.Mcp.Once.{IsOnce, Agrees, AgreesIn}

-- The abstract table: the result that a key has for good.
unfoldable pub final : Option Fields → Option Fields
final none = none
final (some r) = if is_pending r then none else some r

abbrev pub view : Dict Row → String → Option Fields
view t k = final (result k t)

-- A map that takes only the first result of a key.
pub data FirstResult (m n : String → Option Fields) : Type 0 where
  stay : ((j : String) → n j ≡ m j) → FirstResult m n
  commit :
      (k : String) (r : Fields)
      → m k ≡ none
      → ((j : String) → n j ≡ (if str_eq k j then some r else m j))
      → FirstResult m n

final-none : final none ≡ none
unfolding final
final-none = refl

final-marker : final (some pending_marker) ≡ none
unfolding final
final-marker = refl

final-pending : (r : Fields) → is_pending r ≡ true → final (some r) ≡ none
unfolding final
final-pending r e = rw e refl

final_result : (r : Fields) → is_pending r ≡ false → final (some r) ≡ some r
unfolding final
final_result r e = rw e refl

complete-refines :
    (k : String) (r : Fields) (t : Dict Row)
    → result k t ≡ some pending_marker
    → FirstResult (view t) (view (complete k r t))
complete-refines k r t h = elim (Bool-cases (is_pending r)) [
  | inl e ↦ stay (λ j. ground (
    arith,
    result-complete k j r t,
    eq_iff k j,
    contains-result k t,
    final-pending r e,
    final-marker,
  ))
  | inr e ↦
      commit k r (cc (h, final-marker))
        (λ j. ground (arith, result-complete k j r t, contains-result k t, final_result r e))
]

release-refines :
    (k : String) (t : Dict Row)
    → result k t ≡ some pending_marker
    → FirstResult (view t) (view (remove k t))
release-refines k t h =
    stay (λ j. ground (arith, result-remove k j t, eq_iff k j, final-marker, final-none))

module _ {F : Type 0} ⦃fl : Float F⦄ where
  claim-refines :
      (i : Input F) (w : Writer F) (t : Dict Row) → FirstResult (view t) (view (claim i w t).1)
  unfolding claim
  claim-refines i w t = elim (Bool-cases (contains w.key t)) [
    | inl e ↦ rw e (stay (λ j. refl))
    | inr e ↦ rw e (
        stay (λ j. ground (
          arith,
          result-insert w.key j (claimed_row w) t,
          eq_iff w.key j,
          contains-result w.key t,
          final-marker,
          final-none,
        )))
  ]

  advance-refines :
      (i : Input F) (w : Writer F) (p : Phase F) (t : Dict Row)
      → AgreesIn p (result w.key t)
      → FirstResult (view t) (view (advance i w p t).1)
  unfolding advance
  advance-refines i w Phase.claiming t a = elim (Bool-cases (str_eq w.key "")) [
    | inl e ↦ rw e (stay (λ j. refl))
    | inr e ↦ rw e (claim-refines i w t)
  ]
  advance-refines i w (Phase.waiting d) t a = elim (Bool-cases (flt i.now d)) [
    | inl e ↦ rw e (stay (λ j. refl))
    | inr e ↦ rw e (stay (λ j. refl))
  ]
  advance-refines i w Phase.writing t a = stay (λ j. refl)
  advance-refines i w (Phase.completing r) t a = complete-refines w.key r t a
  advance-refines i w Phase.releasing t a = release-refines w.key t a
  advance-refines i w (Phase.written r) t a = stay (λ j. refl)
  advance-refines i w (Phase.replayed r) t a = stay (λ j. refl)
  advance-refines i w (Phase.failed e) t a = stay (λ j. refl)

module _ {F : Type 0} ⦃fl : Float F⦄ {base : String → ℕ} where
  -- Where every row beyond those at the start has one call that owns it, and what the calls took
  -- agrees with the table, a step of any call either leaves the results of all keys as they are,
  -- or adds the result of one key that had none.
  pub step-refines :
      {s u : System F} → IsOnce base s → Step s u → FirstResult (view s.table) (view u.table)
  step-refines once (step_of before w after table i) =
      advance-refines i w w.phase table (All-split (Agrees table) before (w ∷ after) once.agree).1.0
