-- ===== src/Roi/Monotone.antt =====
-- How the return of a task in roi/compute.py answers to its success and its costs.
use agent_roi_console.Common.{◌≡◌, refl, ap, subst, false, not, Option, none, some, arith}
use agent_roi_console.Float.{Float, IsMonotone, fle, float, ◌⊕◌, ◌⊖◌, ◌⊗◌, ◌⊘◌, ◌≼◌}
use agent_roi_console.Roi.{
  Economics, TaskRoi, task_roi, break_even_success_rate, rate_per_minute, value_of, human_cost_of,
  or_configured,
}

-- No assumption is negative.
pub record IsEconomics {F : Type 0} ⦃fl : Float F⦄ (e : Economics F) : Type 0 where
  pub minutes_nonneg : float 0 ≼ e.minutes_per_task
  pub rate_nonneg : float 0 ≼ rate_per_minute e
  pub fix_nonneg : float 0 ≼ e.fix_minutes_per_failure

abbrev net_of : {F : Type 0} → Option (TaskRoi F) → Option F
net_of none = none
net_of (some t) = some t.net_usd

module _ {F : Type 0} ⦃fl : Float F⦄ where
  -- A task has a return exactly if its success lies in [0, 1].
  pub task_roi_total :
      (success llm_cost : F) (e : Economics F) (tool : Option F)
      → float 0 ≼ success
      → success ≼ float 1
      → (t : TaskRoi F) × (task_roi success llm_cost e tool ≡ some t)
  unfolding task_roi
  task_roi_total success llm_cost e tool low high = rw (low, high) (_, refl)

module _ {F : Type 0} ⦃fl : Float F⦄ (laws : IsMonotone F) where
  net_mono :
      (s s' c c' tool : F) (e : Economics F)
      → IsEconomics e
      → s ≼ s'
      → c' ≼ c
      → value_of s e ⊖ (c ⊕ tool ⊕ human_cost_of s e)
        ≼ value_of s' e ⊖ (c' ⊕ tool ⊕ human_cost_of s' e)
  net_mono s s' c c' tool e v h k =
      laws.sub_mono _ _ _ _
        (laws.mul_mono_left _ _ (rate_per_minute e) v.rate_nonneg
          (laws.mul_mono_left s s' e.minutes_per_task v.minutes_nonneg h))
        (laws.add_mono _ _ _ _ (laws.add_mono c' c tool tool k (laws.fle_refl tool)) (
          laws.mul_mono_left _ _ (rate_per_minute e) v.rate_nonneg (
            laws.add_mono _ _ _ _ (laws.fle_refl e.review_minutes_per_task) (
              laws.mul_mono_left _ _ e.fix_minutes_per_failure v.fix_nonneg
                (laws.sub_mono (float 1) (float 1) s' s (laws.fle_refl (float 1)) h)))))

  -- Where the minutes, the labor rate per minute and the fix minutes are not negative, a task with
  -- no less success and no more model cost has no less net return.
  pub task_roi_mono :
      (s s' c c' : F) (tool : Option F) (e : Economics F) (t t' : TaskRoi F)
      → IsEconomics e
      → s ≼ s'
      → c' ≼ c
      → task_roi s c e tool ≡ some t
      → task_roi s' c' e tool ≡ some t'
      → t.net_usd ≼ t'.net_usd
  unfolding task_roi
  task_roi_mono s s' c c' tool e t t' v h k p q =
      ground (arith, net_mono s s' c c' (or_configured tool e.tool_cost_usd_per_task) e v h k)

  -- What breaks even where the denominator is positive.
  abbrev denominator : Economics F → F
  denominator e = (e.minutes_per_task ⊕ e.fix_minutes_per_failure) ⊗ rate_per_minute e

  abbrev quotient : F → Economics F → F
  quotient c e =
      (c ⊕ (e.review_minutes_per_task ⊕ e.fix_minutes_per_failure) ⊗ rate_per_minute e)
      ⊘ denominator e

  broken_even :
      (c : F) (e : Economics F) (r : F)
      → break_even_success_rate c e ≡ some r
      → (fle (denominator e) (float 0) ≡ false) × (quotient c e ≡ r) × (r ≼ float 1)
  unfolding break_even_success_rate
  broken_even c e r p = ground arith

  breaks_even :
      (c : F) (e : Economics F)
      → fle (denominator e) (float 0) ≡ false
      → quotient c e ≼ float 1
      → break_even_success_rate c e ≡ some (quotient c e)
  unfolding break_even_success_rate
  breaks_even c e d h = ground arith

  -- A success rate that breaks even is at most 1, and any lower mean machine cost has one that is
  -- no higher.
  break_even_mono :
      (c c' : F) (e : Economics F) (r : F)
      → c' ≼ c
      → break_even_success_rate c e ≡ some r
      → (r ≼ float 1) × ((r' : F) × (break_even_success_rate c' e ≡ some r') × (r' ≼ r))
  break_even_mono c c' e r k p =
      let (d, q, one) = broken_even c e r p in
      let lower : quotient c' e ≼ quotient c e =
        laws.div_mono _ _ (denominator e) (ap not d) (laws.add_mono c' c _ _ k (laws.fle_refl _)) in
      let below = subst (λ x. quotient c' e ≼ x) q lower in
      (one, (quotient c' e, breaks_even c' e d (laws.fle_trans _ _ _ below one), below))
