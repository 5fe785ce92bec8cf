-- ===== src/Gateway/Breaker/Window.antt =====
-- The sliding window of gateway/breaker.py: which failures a breaker counts, and when it opens.
use agent_roi_console.Common.{
  ℕ, suc, ◌≤◌, ◌<◌, ◌≡◌, refl, subst, sym, ◌↔◌, Bool, true, List, [], ◌∷◌, ◌++◌, arith, length,
  length-append, map, ◌+◌, All, keep_if,
}
use agent_roi_console.Common.Sort.{IsSorted}
use agent_roi_console.Float.{Float, IsMonotone, fle, ◌⊖◌, ◌≼◌}
use agent_roi_console.Gateway.Breaker.{
  closed, opened, CircuitBreaker, Call, asks, succeeds, fails, allow, record_success, run, step,
  drop_stale, record_failure, new,
}

module _ {F : Type 0} ⦃fl : Float F⦄ where
  -- `f` lies in the window that ends at `now`.
  abbrev pub recent : F → F → F → Bool
  recent window_s now f = fle (now ⊖ f) window_s

module _ {F : Type 0} ⦃fl : Float F⦄ (laws : IsMonotone F) where
  -- Once one failure is recent, all later ones are.
  later_recent :
      (window_s now f : F) (fs : List F)
      → recent window_s now f ≡ true
      → All (λ g. f ≼ g) fs
      → keep_if (recent window_s now) fs ≡ fs
  later_recent window_s now f [] h hs = refl
  later_recent window_s now f (g ∷ fs) h hs = ground (
    arith,
    later_recent window_s now f fs h hs.1,
    laws.fle_trans (now ⊖ g) (now ⊖ f) window_s,
    laws.sub_mono now now g f (laws.fle_refl now) hs.0,
  )

  pub drop_stale-eq-keep_if :
      (window_s now : F) (fs : List F)
      → IsSorted fle fs
      → drop_stale window_s now fs ≡ keep_if (recent window_s now) fs
  unfolding drop_stale
  drop_stale-eq-keep_if window_s now [] s = refl
  drop_stale-eq-keep_if window_s now (f ∷ fs) s =
      ground (arith, drop_stale-eq-keep_if window_s now fs s.1, later_recent window_s now f fs)

  -- Where the failures are in the order of their times, a failure opens a closed breaker exactly
  -- when the failures inside the window, that one among them, reach the threshold.
  pub record_failure-opens_iff :
      (now : F) (b : CircuitBreaker F)
      → b.state ≡ closed
      → IsSorted fle (b.failures ++ now ∷ [])
      → ((record_failure now b).state ≡ opened)
        ↔ (b.failure_threshold ≤ length (keep_if (recent b.window_s now) (b.failures ++ now ∷ [])))
  unfolding record_failure
  record_failure-opens_iff now b shut s =
      ground (arith, drop_stale-eq-keep_if b.window_s now (b.failures ++ now ∷ []) s)

module _ {F : Type 0} ⦃fl : Float F⦄ where
  -- The times of a burst of failures behind the first, none of them later than the window allows.
  abbrev pub InWindow : F → F → List F → Type 0
  InWindow window_s first ts = All (λ t. t ⊖ first ≼ window_s) ts

  count_in_window :
      (first t : F) (fs : List F) (b : CircuitBreaker F)
      → b.state ≡ closed
      → b.failures ≡ first ∷ fs
      → t ⊖ first ≼ b.window_s
      → length fs + 2 < b.failure_threshold
      → record_failure t b ≡ record b { failures = first ∷ (fs ++ t ∷ []) }
  unfolding record_failure drop_stale
  count_in_window first t fs b shut e w n = ground (arith, length-append fs (t ∷ []))

  burst :
      (first : F) (fs ts : List F) (b : CircuitBreaker F)
      → b.state ≡ closed
      → b.failures ≡ first ∷ fs
      → InWindow b.window_s first ts
      → length fs + length ts + 1 ≡ b.failure_threshold
      → 0 < length ts
      → (run b (map fails ts)).state ≡ opened
  unfolding run step record_failure drop_stale
  burst first fs [] b shut e w n p = absurd (omega arith)
  burst first fs (t ∷ []) b shut e w n p = ground (arith, length-append fs (t ∷ []))
  burst first fs (t ∷ u ∷ ts) b shut e w n p =
      subst (λ c. (run c (map fails (u ∷ ts))).state ≡ opened)
        (sym (count_in_window first t fs b shut e w.0 (omega arith)))
        (burst first (fs ++ t ∷ []) (u ∷ ts) (record b { failures = first ∷ (fs ++ t ∷ []) }) shut
          refl w.1 (omega (arith, length-append fs (t ∷ []))) (omega arith))

  first_failure :
      (threshold : ℕ) (window_s half_open_after_s first : F)
      → 1 < threshold
      → first ⊖ first ≼ window_s
      → let b = new threshold window_s half_open_after_s in
        record_failure first b ≡ record b { failures = first ∷ [] }
  unfolding record_failure drop_stale new
  first_failure threshold window_s half_open_after_s first p w = ground arith

  -- As many failures as the threshold, which is at least 2, all of them within the window of the
  -- first, open a new breaker.
  pub new-burst :
      (threshold : ℕ) (window_s half_open_after_s first : F) (ts : List F)
      → 1 < threshold
      → length (first ∷ ts) ≡ threshold
      → InWindow window_s first (first ∷ ts)
      → (run (new threshold window_s half_open_after_s) (map fails (first ∷ ts))).state ≡ opened
  unfolding run step new
  new-burst threshold window_s half_open_after_s first ts p n w =
      subst (λ c. (run c (map fails ts)).state ≡ opened)
        (sym (first_failure threshold window_s half_open_after_s first p w.0))
        (burst first [] ts _ refl refl w.1 (omega arith) (omega arith))

  abbrev pub count_fails : List (Call F) → ℕ
  count_fails [] = 0
  count_fails (fails now ∷ cs) = suc (count_fails cs)
  count_fails (asks now ∷ cs) = count_fails cs
  count_fails (succeeds ∷ cs) = count_fails cs

  length-drop_stale-le :
      (window_s now : F) (fs : List F) → length (drop_stale window_s now fs) ≤ length fs
  unfolding drop_stale
  length-drop_stale-le window_s now [] = omega arith
  length-drop_stale-le window_s now (f ∷ fs) = ground (arith, length-drop_stale-le window_s now fs)

  -- A closed breaker stays closed in any history with fewer failures, those it holds included,
  -- than the threshold.
  pub few_failures :
      (cs : List (Call F)) (b : CircuitBreaker F)
      → b.state ≡ closed
      → length b.failures + count_fails cs < b.failure_threshold
      → (run b cs).state ≡ closed
  unfolding run step allow record_success record_failure
  few_failures [] b shut n = shut
  few_failures (asks now ∷ cs) b shut n = few_failures cs _ (ground arith) (ground arith)
  few_failures (succeeds ∷ cs) b shut n = few_failures cs _ refl (omega arith)
  few_failures (fails t ∷ cs) b shut n =
      few_failures cs _
        (ground (
          arith,
          length-drop_stale-le b.window_s t (b.failures ++ t ∷ []),
          length-append b.failures (t ∷ []),
        ))
        (ground (
          arith,
          length-drop_stale-le b.window_s t (b.failures ++ t ∷ []),
          length-append b.failures (t ∷ []),
        ))
