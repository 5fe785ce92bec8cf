-- ===== src/Guard/Window.antt =====
-- Which runs a decision of guard/state_machine.py looks at.
use agent_roi_console.Common.{
  ℕ, ◌-◌, ◌≤◌, ◌<◌, min, ◌≡◌, ap, Bool, false, List, ◌++◌, arith, length, take, keep_if, leb,
  length-take, length-drop, take-append-drop, take-append, keep_if-append, All-take, All,
  keep_if-All, All-mono, leb→le,
}
use agent_roi_console.Guard.{downgraded, GuardState, SeqRun, is_downgraded, window_for}

module _ {A : Type 0} where
  length-window_for :
      (state : GuardState) (runs : List (SeqRun A)) (n : ℕ)
      → 0 < n
      → length (window_for state runs n) ≤ n
  unfolding window_for
  length-window_for state runs n p = ground (
    arith,
    length-take n (keep_if (λ (r : SeqRun A). leb state.phase_run_offset r.seq) runs),
    length-drop (length runs - n) runs,
  )

  -- Outside the downgraded phase the window is the last runs, as many as the least number of runs
  -- or all there are.
  pub window_for-recent :
      (state : GuardState) (runs : List (SeqRun A)) (n : ℕ)
      → is_downgraded state.phase ≡ false
      → 0 < n
      → (take (length runs - n) runs ++ window_for state runs n ≡ runs)
        × (length (window_for state runs n) ≡ min n (length runs))
  unfolding window_for
  window_for-recent state runs n out p =
      ground (arith, length-drop (length runs - n) runs, take-append-drop (length runs - n) runs)

  after_offset : GuardState → SeqRun A → Bool
  after_offset state r = leb state.phase_run_offset r.seq

  window_for-eq-take :
      (state : GuardState) (runs : List (SeqRun A)) (n : ℕ)
      → state.phase ≡ downgraded
      → window_for state runs n ≡ take n (keep_if (after_offset state) runs)
  unfolding window_for after_offset
  window_for-eq-take state runs n e = ground arith

  after_offset-All :
      (state : GuardState) (n : ℕ) (runs : List (SeqRun A))
      → All (λ r. state.phase_run_offset ≤ r.seq) (take n (keep_if (after_offset state) runs))
  unfolding after_offset
  after_offset-All state n runs = All-take _ n _ (
      All-mono (λ r h. leb→le state.phase_run_offset r.seq h) _
        (keep_if-All (after_offset state) runs))

  -- In the downgraded phase the window holds only runs from the downgrade on, at most as many as
  -- the least number of runs.
  window_for-downgraded :
      (state : GuardState) (runs : List (SeqRun A)) (n : ℕ)
      → state.phase ≡ downgraded
      → All (λ r. state.phase_run_offset ≤ r.seq) (window_for state runs n)
        × (length (window_for state runs n) ≤ n)
  window_for-downgraded state runs n e = rw (window_for-eq-take state runs n e) (
    after_offset-All state n runs,
    omega (arith, length-take n (keep_if (after_offset state) runs)),
  )

  -- A full window of the downgraded phase is not changed by runs that come later.
  window_for-append :
      (state : GuardState) (runs later : List (SeqRun A)) (n : ℕ)
      → state.phase ≡ downgraded
      → length (window_for state runs n) ≡ n
      → window_for state (runs ++ later) n ≡ window_for state runs n
  window_for-append state runs later n e full =
      rw
        (
          window_for-eq-take state runs n e,
          window_for-eq-take state (runs ++ later) n e,
          keep_if-append (after_offset state) runs later,
        )
        (take-append n _ _ (
          omega (
            arith,
            length-take n (keep_if (after_offset state) runs),
            ap length (window_for-eq-take state runs n e),
            full,
          )))
