-- ===== src/Gateway/Budgets/Charge.antt =====
-- Charges of gateway/budgets.py: which counters move, and by how much.
use Prim.Native.Char.{code}
use agent_roi_console.Common.{
  ℕ, zero, suc, ◌≡◌, ◌∙◌, ap, ◌≢◌, false, String, some, arith, eq_iff, str_eq, if◌then◌else◌,
}
use agent_roi_console.Common.Dict.{lookup}
use agent_roi_console.Float.{Float, IsMonotone, HasRepr, fle, fmin, float, ◌⊕◌, ◌⊖◌, ◌≼◌}
use agent_roi_console.Float.Laws.{le-add_nonneg, fmin_mono}
use agent_roi_console.Gateway.Store.{MemoryStore, is_expired, get_float, incr_float}
use agent_roi_console.Gateway.Store.Values.{
  get_float-lookup, lookup-incr_float, get_float-stored, lookup-live, incr_float-value,
}
use agent_roi_console.Gateway.Budgets.{
  BudgetConfig, ChargeTimes, run_key, day_key, run_key_ttl_s, day_key_ttl_s, for_workflow, spent,
  both, left_of, remaining, charge, charge_day,
}

-- The letter that tells the two kinds of budget keys apart.
abbrev nth_code : ℕ → String → ℕ
nth_code n String.[] = 0
nth_code zero (String.◌∷◌ c s) = code c
nth_code (suc n) (String.◌∷◌ c s) = nth_code n s

abbrev kind_tag : String → ℕ
kind_tag = nth_code 7

run_key-ne-day_key :
    (run_id workflow_id day : String) → str_eq (run_key run_id) (day_key workflow_id day) ≡ false
run_key-ne-day_key run_id workflow_id day =
    ground (arith, eq_iff (run_key run_id) (day_key workflow_id day), differ)
  where
    differ : run_key run_id ≢ day_key workflow_id day
    differ e = absurd (omega (arith, ap kind_tag e))

module _ {F : Type 0} ⦃fl : Float F⦄ (t : ChargeTimes F) (day workflow_id run_id : String)
    (cost_usd : F) (s : MemoryStore F) {run_total day_total : F}
    (paid : fle cost_usd (float 0) ≡ false)
    (run_before : (get_float t.run_read (run_key run_id) s).0 ≡ some run_total)
    (day_before : (get_float t.day_read (day_key workflow_id day) s).0 ≡ some day_total) where
  after_run : MemoryStore F
  after_run = (incr_float t.run_read t.run_written (run_key run_id) cost_usd run_key_ttl_s s).1

  day_unmoved : (get_float t.day_read (day_key workflow_id day) after_run).0 ≡ some day_total
  unfolding after_run
  day_unmoved =
      get_float-lookup t.day_read (day_key workflow_id day) after_run s (
        ground (
          arith,
          lookup-incr_float t.run_read t.run_written cost_usd run_total (run_key run_id)
              (day_key workflow_id day) run_key_ttl_s s run_before,
          run_key-ne-day_key run_id workflow_id day,
        ))
      ∙ day_before

  -- A charge of a positive cost adds it to the counters of the run and of the day, with their
  -- times to live, and changes no other value of the store.
  pub charge_lem :
      ((charge t day workflow_id run_id cost_usd s).0 ≡ some tt)
      × ((j : String)
          → lookup j (charge t day workflow_id run_id cost_usd s).1.values ≡ (
              if str_eq (day_key workflow_id day) j
              then some (fl.repr (day_total ⊕ cost_usd), t.day_written ⊕ float day_key_ttl_s)
              else if str_eq (run_key run_id) j
              then some (fl.repr (run_total ⊕ cost_usd), t.run_written ⊕ float run_key_ttl_s)
              else lookup j s.values))
  unfolding charge charge_day after_run
  charge_lem = (
    ground (
      arith,
      incr_float-value t.run_read t.run_written cost_usd run_total (run_key run_id) run_key_ttl_s s
          run_before,
      incr_float-value t.day_read t.day_written cost_usd day_total (day_key workflow_id day)
          day_key_ttl_s after_run day_unmoved,
    ),
    λ j. ground (
      arith,
      incr_float-value t.run_read t.run_written cost_usd run_total (run_key run_id) run_key_ttl_s s
          run_before,
      lookup-incr_float t.run_read t.run_written cost_usd run_total (run_key run_id) j run_key_ttl_s
          s run_before,
      lookup-incr_float t.day_read t.day_written cost_usd day_total (day_key workflow_id day) j
          day_key_ttl_s after_run day_unmoved,
    ),
  )

-- Where both counters can be read, a charge's effect on what is left.
module _ {F : Type 0} ⦃fl : Float F⦄ (laws : IsMonotone F) (repr : HasRepr F) (t : ChargeTimes F)
    (day workflow_id run_id : String) (cost_usd : F) (s : MemoryStore F)
    (run_total day_total run_later day_later : F) (paid : fle cost_usd (float 0) ≡ false)
    (run_before : (get_float t.run_read (run_key run_id) s).0 ≡ some run_total)
    (day_before : (get_float t.day_read (day_key workflow_id day) s).0 ≡ some day_total)
    (run_fresh : is_expired run_later (t.run_written ⊕ float run_key_ttl_s) ≡ false)
    (day_fresh : is_expired day_later (t.day_written ⊕ float day_key_ttl_s) ≡ false) where
  abbrev charged : MemoryStore F
  charged = (charge t day workflow_id run_id cost_usd s).1

  run_after : (get_float run_later (run_key run_id) charged).0 ≡ some (run_total ⊕ cost_usd)
  run_after =
      get_float-stored repr run_later _ _ (run_key run_id) charged
        (ground (
          arith,
          (charge_lem t day workflow_id run_id cost_usd s paid run_before day_before).1
              (run_key run_id),
          run_key-ne-day_key run_id workflow_id day,
          eq_iff (run_key run_id) (run_key run_id),
          eq_iff (run_key run_id) (day_key workflow_id day),
          eq_iff (day_key workflow_id day) (run_key run_id),
        ))
        run_fresh

  day_after :
      (get_float day_later
        (day_key workflow_id day)
        (get_float run_later (run_key run_id) charged).1).0
      ≡ some (day_total ⊕ cost_usd)
  unfolding get_float
  day_after =
      get_float-stored repr day_later _ _ (day_key workflow_id day) _
        (ground (
          arith,
          lookup-live run_later (run_key run_id) (day_key workflow_id day) charged
              (run_key-ne-day_key run_id workflow_id day),
          (charge_lem t day workflow_id run_id cost_usd s paid run_before day_before).1
              (day_key workflow_id day),
          eq_iff (day_key workflow_id day) (day_key workflow_id day),
        ))
        day_fresh

  -- After a charge of a positive cost, both counters read, before they expire, as what they read
  -- before plus the cost.
  pub spent-charge :
      (spent run_later day_later day workflow_id run_id charged).0
      ≡ some (run_total ⊕ cost_usd, day_total ⊕ cost_usd)
  unfolding spent both
  spent-charge = ground (arith, run_after, day_after)

  -- After a charge of a positive cost, and before the counters expire, what remains is the lesser
  -- rest of the two limits with the cost spent from both, and is no more than before.
  remaining-charge :
      (config : BudgetConfig F)
      → let limits = for_workflow config workflow_id in
        let before =
          fmin (limits.per_run_usd ⊖ run_total) (limits.per_workflow_daily_usd ⊖ day_total) in
        let after =
          fmin
            (limits.per_run_usd ⊖ (run_total ⊕ cost_usd))
            (limits.per_workflow_daily_usd ⊖ (day_total ⊕ cost_usd)) in
        ((remaining run_later day_later day config workflow_id run_id charged).0 ≡ some after)
        × (after ≼ before)
  unfolding remaining left_of
  remaining-charge config =
      let limits = for_workflow config workflow_id in
      let costs : float 0 ≼ cost_usd = ground (arith, laws.fle_total cost_usd (float 0)) in
      (
        ground (arith, spent-charge),
        fmin_mono laws _ _ _ _
            (laws.sub_mono _ _ _ _ (laws.fle_refl limits.per_run_usd)
              (le-add_nonneg laws run_total cost_usd costs))
            (laws.sub_mono _ _ _ _ (laws.fle_refl limits.per_workflow_daily_usd)
              (le-add_nonneg laws day_total cost_usd costs)),
      )
