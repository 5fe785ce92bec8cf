-- ===== src/Mcp/Steps.antt =====
-- mcp_servers/common.py: each step of a call keeps one owner for each key, in any order of the steps.
use agent_roi_console.Common.{
  ℕ, ◌+◌, ◌≡◌, refl, ◌⊎◌, inl, inr, true, false, Bool-cases, List, ◌∷◌, ◌++◌, String, Option, none,
  some, All-append, All-split, str_eq, eq_iff, arith, if◌then◌else◌,
}
use agent_roi_console.Common.Dict.{Dict, contains, insert, remove, contains-insert}
use agent_roi_console.Json.{Fields}
use agent_roi_console.Float.{Float, flt}
use agent_roi_console.Mcp.{
  Row, Phase, Failure, Writer, Input, System, Step, Reach, step_of, here, next, moved, advance,
  claim, poll, claimed_row, result, complete, pending_marker, is_pending, after_write,
}
use agent_roi_console.Mcp.Table.{
  result-insert, result-remove, result-complete, contains-remove, contains-complete,
  contains-result,
}
use agent_roi_console.Mcp.Once.{
  IsOnce, Agrees, AgreesIn, is_owner, owned, owners, has_row, owners-append, others-Agrees,
}

module _ {F : Type 0} ⦃fl : Float F⦄ (base : String → ℕ) where
  -- A step that touches no row, and after which the call owns its key as before.
  IsOnce-still :
      (before after : List (Writer F)) (w : Writer F) (p : Phase F) (t : Dict Row)
      → is_owner p ≡ is_owner w.phase
      → (AgreesIn w.phase (result w.key t) → AgreesIn p (result w.key t))
      → IsOnce base (record { writers = before ++ w ∷ after; table = t })
      → IsOnce base (moved before w after (p, t))
  unfolding owners
  IsOnce-still before after w p t e agree once =
      let w' : Writer F = record w { phase = p } in
      let split = All-split (Agrees t) before (w ∷ after) once.agree in
      record {
        owner_iff = λ k. ground (
          arith,
          once.owner_iff k,
          owners-append k before (w ∷ after),
          owners-append k before (w' ∷ after),
        );
        agree = All-append (Agrees t) before (w' ∷ after) split.0 (agree split.1.0, split.1.1);
      }

  -- A step that changes the row of the call's key, which no other call owns.
  IsOnce-change :
      (before after : List (Writer F)) (w : Writer F) (p : Phase F) (t t' : Dict Row)
      → ((j : String) → str_eq w.key j ≡ false → result j t' ≡ result j t)
      → (result w.key t ≡ none) ⊎ (result w.key t ≡ some pending_marker)
      → owners w.key before + owners w.key after ≡ 0
      → ((j : String)
          → (if str_eq w.key j then (if is_owner p then 1 else 0) else 0) + has_row j t
            ≡ owned j w + has_row j t')
      → AgreesIn p (result w.key t')
      → IsOnce base (record { writers = before ++ w ∷ after; table = t })
      → IsOnce base (moved before w after (p, t'))
  unfolding owners
  IsOnce-change before after w p t t' frame free others rows agree once =
      let w' : Writer F = record w { phase = p } in
      let split = All-split (Agrees t) before (w ∷ after) once.agree in
      record {
        owner_iff = λ k. omega (
          arith,
          once.owner_iff k,
          rows k,
          owners-append k before (w ∷ after),
          owners-append k before (w' ∷ after),
        );
        agree =
            All-append (Agrees t') before (w' ∷ after)
              (others-Agrees w.key t t' frame free before (omega arith) split.0)
              (agree, others-Agrees w.key t t' frame free after (omega arith) split.1.1);
      }

  abbrev at_phase : Writer F → Phase F → Writer F
  at_phase w p = record w { phase = p }

  abbrev During : List (Writer F) → Writer F → List (Writer F) → Phase F → Dict Row → Type 0
  During before w after p t =
      IsOnce base (record { writers = before ++ at_phase w p ∷ after; table = t })

  -- An owner is the only one of its key.
  sole_owner :
      (before after : List (Writer F)) (w : Writer F) (p : Phase F) (t : Dict Row)
      → is_owner p ≡ true
      → During before w after p t
      → (owners w.key before + owners w.key after ≡ 0) × (contains w.key t ≡ true)
  unfolding owners
  sole_owner before after w p t o once = ground (
    arith,
    once.owner_iff w.key,
    eq_iff w.key w.key,
    owners-append w.key before (at_phase w p ∷ after),
  )

  claim-IsOnce :
      (before after : List (Writer F)) (w : Writer F) (i : Input F) (t : Dict Row)
      → During before w after Phase.claiming t
      → IsOnce base (moved before w after (claim i w t))
  unfolding claim owners
  claim-IsOnce before after w i t once =
      let row = claimed_row w in
      elim (Bool-cases (contains w.key t)) [
        | inl e ↦
            rw e (IsOnce-still before after (at_phase w Phase.claiming) _ t refl (λ a. tt) once)
        | inr e ↦ rw e (
            IsOnce-change before after (at_phase w Phase.claiming) Phase.writing t
              (insert w.key row t) (λ j h. ground (arith, result-insert w.key j row t))
              (inl (ground (arith, contains-result w.key t)))
              (ground (
                arith,
                once.owner_iff w.key,
                owners-append w.key before (at_phase w Phase.claiming ∷ after),
              ))
              (λ j. ground (arith, eq_iff w.key j, contains-insert w.key j row t))
              (ground (arith, eq_iff w.key w.key, result-insert w.key w.key row t)) once)
      ]

  complete-IsOnce :
      (before after : List (Writer F)) (w : Writer F) (r : Fields) (t : Dict Row)
      → During before w after (Phase.completing r) t
      → During before w after (Phase.written r) (complete w.key r t)
  complete-IsOnce before after w r t once =
      let sole = sole_owner before after w (Phase.completing r) t refl once in
      let own = All-split (Agrees t) before (at_phase w (Phase.completing r) ∷ after) once.agree in
      IsOnce-change before after (at_phase w (Phase.completing r)) (Phase.written r) t
        (complete w.key r t) (λ j h. ground (arith, result-complete w.key j r t)) (inr own.1.0)
        sole.0 (λ j. ground (arith, contains-complete w.key j r t))
        (ground (arith, eq_iff w.key w.key, sole.1, result-complete w.key w.key r t)) once

  release-IsOnce :
      (before after : List (Writer F)) (w : Writer F) (e : Failure) (t : Dict Row)
      → During before w after Phase.releasing t
      → During before w after (Phase.failed e) (remove w.key t)
  release-IsOnce before after w e t once =
      let sole = sole_owner before after w Phase.releasing t refl once in
      let own = All-split (Agrees t) before (at_phase w Phase.releasing ∷ after) once.agree in
      IsOnce-change before after (at_phase w Phase.releasing) (Phase.failed e) t (remove w.key t)
        (λ j h. ground (arith, result-remove w.key j t)) (inr own.1.0) sole.0
        (λ j. ground (arith, eq_iff w.key j, sole.1, contains-remove w.key j t)) tt once

  poll-IsOnce :
      (before after : List (Writer F)) (w : Writer F) (d : F) (o : Option Fields) (t : Dict Row)
      → result w.key t ≡ o
      → During before w after (Phase.waiting d) t
      → During before w after (poll d o) t
  unfolding poll
  poll-IsOnce before after w d none t e once =
      IsOnce-still before after (at_phase w (Phase.waiting d)) Phase.claiming t refl (λ a. a) once
  poll-IsOnce before after w d (some r) t e once = elim (Bool-cases (is_pending r)) [
    | inl h ↦ rw h once
    | inr h ↦ rw h (
        IsOnce-still before after (at_phase w (Phase.waiting d)) (Phase.replayed r) t refl
          (λ a. (e, h)) once)
  ]

  after_write-IsOnce :
      (before after : List (Writer F)) (w : Writer F) (o : Option Fields) (t : Dict Row)
      → During before w after Phase.writing t
      → During before w after (after_write o) t
  after_write-IsOnce before after w none t once =
      IsOnce-still before after (at_phase w Phase.writing) Phase.releasing t refl (λ a. a) once
  after_write-IsOnce before after w (some r) t once =
      IsOnce-still before after (at_phase w Phase.writing) (Phase.completing r) t refl (λ a. a) once

  advance-IsOnce :
      (before after : List (Writer F)) (w : Writer F) (i : Input F) (p : Phase F) (t : Dict Row)
      → During before w after p t
      → During before w after (advance i w p t).0 (advance i w p t).1
  unfolding advance
  advance-IsOnce before after w i Phase.claiming t once = elim (Bool-cases (str_eq w.key "")) [
    | inl e ↦ rw e (
        IsOnce-still before after (at_phase w Phase.claiming) (Phase.failed Failure.no_key) t refl
          (λ a. tt) once)
    | inr e ↦ rw e (claim-IsOnce before after w i t once)
  ]
  advance-IsOnce before after w i (Phase.waiting d) t once = elim (Bool-cases (flt i.now d)) [
    | inl e ↦ rw e (poll-IsOnce before after w d (result w.key t) t refl once)
    | inr e ↦ rw e (
        IsOnce-still before after (at_phase w (Phase.waiting d))
          (Phase.failed Failure.still_pending) t refl (λ a. tt) once)
  ]
  advance-IsOnce before after w i Phase.writing t once =
      after_write-IsOnce before after w i.outcome t once
  advance-IsOnce before after w i (Phase.completing r) t once =
      complete-IsOnce before after w r t once
  advance-IsOnce before after w i Phase.releasing t once =
      release-IsOnce before after w Failure.write_raised t once
  advance-IsOnce before after w i (Phase.written r) t once = once
  advance-IsOnce before after w i (Phase.replayed r) t once = once
  advance-IsOnce before after w i (Phase.failed e) t once = once

module _ {F : Type 0} ⦃fl : Float F⦄ {base : String → ℕ} where
  pub Step-IsOnce : {s u : System F} → Step s u → IsOnce base s → IsOnce base u
  Step-IsOnce (step_of before w after table i) once =
      advance-IsOnce base before after w i w.phase table once

  pub Reach-IsOnce : {s u : System F} → IsOnce base s → Reach s u → IsOnce base u
  Reach-IsOnce once here = once
  Reach-IsOnce once (next r s) = Step-IsOnce s (Reach-IsOnce once r)
