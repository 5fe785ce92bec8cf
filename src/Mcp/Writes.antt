-- ===== src/Mcp/Writes.antt =====
-- mcp_servers/common.py: `idempotent_write` under any interleaving of its callers: how often a key is
-- written, and what its callers return.
use agent_roi_console.Common.{
  ℕ, ◌+◌, ◌≤◌, ◌≡◌, refl, sym, subst, ◌∙◌, inl, inr, Bool, true, false, List, [], ◌∷◌, String,
  Option, none, some, All, Has, str_eq, eq_iff, arith, if◌then◌else◌,
}
use agent_roi_console.Common.Dict.{Dict}
use agent_roi_console.Json.{Fields}
use agent_roi_console.Float.{Float}
use agent_roi_console.Mcp.{Row, Phase, Writer, System, Reach, result}
use agent_roi_console.Mcp.Once.{IsOnce, Agrees, AgreesIn, owned, owners, has_row}
use agent_roi_console.Mcp.Steps.{Reach-IsOnce}

module _ {F : Type 0} ⦃fl : Float F⦄ where
  abbrev pub IsClaiming : Writer F → Type 0
  IsClaiming w = w.phase ≡ Phase.claiming

  -- Calls that have not yet done anything, on a table with any rows.
  abbrev pub IsStart : System F → Type 0
  IsStart s = All IsClaiming s.writers

  abbrev pub is_written : Phase F → Bool
  is_written (Phase.written r) = true
  is_written _ = false

  -- How many calls have written under a key.
  unfoldable pub writes : String → List (Writer F) → ℕ
  writes k [] = 0
  writes k (w ∷ ws) =
      (if str_eq w.key k then (if is_written w.phase then 1 else 0) else 0) + writes k ws

  -- What a call that has returned took for the result of the write.
  abbrev pub outcome_of : Phase F → Option Fields
  outcome_of (Phase.written r) = some r
  outcome_of (Phase.replayed r) = some r
  outcome_of _ = none

  written_owned :
      (k : String) (w : Writer F) (p : Phase F)
      → (if is_written p then 1 else 0)
        ≤ owned k (record { key = k; of_server = w.of_server; of_tool = w.of_tool; phase = p })
  written_owned k w Phase.claiming = omega arith
  written_owned k w (Phase.waiting d) = omega arith
  written_owned k w Phase.writing = omega arith
  written_owned k w (Phase.completing r) = omega arith
  written_owned k w Phase.releasing = omega arith
  written_owned k w (Phase.written r) = ground (arith, eq_iff k k)
  written_owned k w (Phase.replayed r) = omega arith
  written_owned k w (Phase.failed e) = omega arith

  writes-le-owners : (k : String) (ws : List (Writer F)) → writes k ws ≤ owners k ws
  unfolding writes owners
  writes-le-owners k [] = omega arith
  writes-le-owners k (w ∷ ws) =
      ground (arith, eq_iff w.key k, eq_iff k k, written_owned k w w.phase, writes-le-owners k ws)

  start-owners : (k : String) (ws : List (Writer F)) → All IsClaiming ws → owners k ws ≡ 0
  unfolding owners
  start-owners k [] h = refl
  start-owners k (w ∷ ws) h = rw h.0 (ground (arith, start-owners k ws h.1))

  start-Agrees : (t : Dict Row) (ws : List (Writer F)) → All IsClaiming ws → All (Agrees t) ws
  start-Agrees t [] h = tt
  start-Agrees t (w ∷ ws) h =
      (subst (λ p. AgreesIn p (result w.key t)) (sym h.0) tt, start-Agrees t ws h.1)

  pub start-IsOnce : (s : System F) → IsStart s → IsOnce (λ k. has_row k s.table) s
  start-IsOnce s h = record {
    owner_iff = λ k. omega (arith, start-owners k s.writers h);
    agree = start-Agrees s.table s.writers h;
  }

  -- From calls that start, in any order of their steps, at most one call returns the result of a
  -- write of its own under a key, and none where the key had a row at the start.
  pub one_write :
      (s u : System F)
      → IsStart s
      → Reach s u
      → (k : String) → writes k u.writers + has_row k s.table ≤ 1
  one_write s u start r k =
      let once = Reach-IsOnce (start-IsOnce s start) r in
      ground (arith, once.owner_iff k, writes-le-owners k u.writers)

  Agrees-outcome :
      (p : Phase F) (o : Option Fields) (r : Fields)
      → AgreesIn p o
      → outcome_of p ≡ some r
      → o ≡ some r
  Agrees-outcome Phase.claiming o r a e = absurd (ground arith)
  Agrees-outcome (Phase.waiting d) o r a e = absurd (ground arith)
  Agrees-outcome Phase.writing o r a e = absurd (ground arith)
  Agrees-outcome (Phase.completing q) o r a e = absurd (ground arith)
  Agrees-outcome Phase.releasing o r a e = absurd (ground arith)
  Agrees-outcome (Phase.written q) o r a e = a ∙ e
  Agrees-outcome (Phase.replayed q) o r a e = a.0 ∙ e
  Agrees-outcome (Phase.failed f) o r a e = absurd (ground arith)

  outcome-result :
      (t : Dict Row) (ws : List (Writer F)) (w : Writer F) (r : Fields)
      → All (Agrees t) ws
      → Has w ws
      → outcome_of w.phase ≡ some r
      → result w.key t ≡ some r
  outcome-result t [] w r a m h = absurd m
  outcome-result t (v ∷ ws) w r a (inl e) h =
      Agrees-outcome w.phase (result w.key t) r (subst (Agrees t) e a.0) h
  outcome-result t (v ∷ ws) w r a (inr m) h = outcome-result t ws w r a.1 m h

  -- From calls that start, in any order of their steps, two calls with the same key that have both
  -- returned a result took the same one.
  pub same_result :
      (s u : System F)
      → IsStart s
      → Reach s u
      → (v w : Writer F) (r q : Fields) → Has v u.writers
      → Has w u.writers
      → v.key ≡ w.key
      → outcome_of v.phase ≡ some r
      → outcome_of w.phase ≡ some q
      → r ≡ q
  same_result s u start reach v w r q mv mw e hv hw =
      let once = Reach-IsOnce (start-IsOnce s start) reach in
      let rv = outcome-result u.table u.writers v r once.agree mv hv in
      let rw' = outcome-result u.table u.writers w q once.agree mw hw in cc (rv, rw', e)
