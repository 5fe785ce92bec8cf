-- ===== src/Gateway/Budgets.antt =====
-- gateway/budgets.py: limits per run and per workflow and day, and the spend against them. The UTC
-- date and each reading of the store's clock are arguments.
pub mod Charge
use agent_roi_console.Common.{
  ℕ, ◌*◌, Bool, true, false, not, List, [], ◌∷◌, String, Option, none, some, join, if◌then◌else◌,
}
use agent_roi_console.Common.Dict.{Dict, lookup, insert}
use agent_roi_console.Float.{Float, fle, fmin, float, ◌⊖◌}
use agent_roi_console.Gateway.Store.{MemoryStore, get_float, incr_float}

abbrev pub run_key_ttl_s : ℕ
run_key_ttl_s = 7 * 24 * 3600

abbrev pub day_key_ttl_s : ℕ
day_key_ttl_s = 2 * 24 * 3600

pub record WorkflowBudget (F : Type 0) : Type 0 where
  pub per_run_usd : F
  pub per_workflow_daily_usd : F

pub record BudgetConfig (F : Type 0) : Type 0 where
  pub defaults : WorkflowBudget F
  pub overrides : Dict (WorkflowBudget F)

-- An override in budgets.yaml; what it leaves out is the default.
pub record BudgetEntry (F : Type 0) : Type 0 where
  pub per_run_usd : Option F
  pub per_workflow_daily_usd : Option F

module _ {F : Type 0} where
  abbrev pub or_default : Option F → F → F
  or_default none d = d
  or_default (some x) d = x

  load_overrides : WorkflowBudget F → Dict (BudgetEntry F) → Dict (WorkflowBudget F)
  load_overrides d [] = []
  load_overrides d ((workflow_id, e) ∷ rest) =
      (
        workflow_id,
        record {
          per_run_usd = or_default e.per_run_usd d.per_run_usd;
          per_workflow_daily_usd = or_default e.per_workflow_daily_usd d.per_workflow_daily_usd;
        },
      )
      ∷ load_overrides d rest

  unfoldable pub load : WorkflowBudget F → Dict (BudgetEntry F) → BudgetConfig F
  unfolding load_overrides
  load defaults workflows = record {
    defaults = defaults;
    overrides = load_overrides defaults workflows;
  }

  unfoldable pub for_workflow : BudgetConfig F → String → WorkflowBudget F
  for_workflow config workflow_id = elim (lookup workflow_id config.overrides) [
    | none ↦ config.defaults
    | some limits ↦ limits
  ]

abbrev pub run_key : String → String
run_key run_id = join ("budget:run:" ∷ run_id ∷ [])

abbrev pub day_key : String → String → String
day_key workflow_id day = join ("budget:wf:" ∷ workflow_id ∷ ":" ∷ day ∷ [])

-- A value, or the `ValueError` of a counter that is no number, with the store either way.
module _ {F : Type 0} ⦃fl : Float F⦄ where
  both : Option F → Option F → Option (F × F)
  both (some r) (some d) = some (r, d)
  both _ none = none
  both none _ = none

  unfoldable pub spent :
      F → F → String → String → String → MemoryStore F → Option (F × F) × MemoryStore F
  unfolding both
  spent run_read day_read day workflow_id run_id s =
      let (run_spent, s') = get_float run_read (run_key run_id) s in
      let (day_spent, s'') = get_float day_read (day_key workflow_id day) s' in
      (both run_spent day_spent, s'')

  left_of : WorkflowBudget F → Option (F × F) → Option F
  left_of limits none = none
  left_of limits (some (run_spent, day_spent)) =
      some (fmin (limits.per_run_usd ⊖ run_spent) (limits.per_workflow_daily_usd ⊖ day_spent))

  unfoldable pub remaining :
      F → F → String → BudgetConfig F → String → String → MemoryStore F → Option F × MemoryStore F
  unfolding spent left_of
  remaining run_read day_read day config workflow_id run_id s =
      let (used, s') = spent run_read day_read day workflow_id run_id s in
      (left_of (for_workflow config workflow_id) used, s')

-- The readings of the store's clock during a charge.
pub record ChargeTimes (F : Type 0) : Type 0 where
  pub run_read : F
  pub run_written : F
  pub day_read : F
  pub day_written : F

module _ {F : Type 0} ⦃fl : Float F⦄ where
  charge_day :
      Option F → ChargeTimes F → String → F → MemoryStore F → Option (Unit {0}) × MemoryStore F
  charge_day none t key cost_usd s = (none, s)
  charge_day (some _) t key cost_usd s =
      let (day_total, s') = incr_float t.day_read t.day_written key cost_usd day_key_ttl_s s in
      (elim day_total [ none ↦ none | some _ ↦ some tt ], s')

  unfoldable pub charge :
      ChargeTimes F
      → String
      → String
      → String
      → F
      → MemoryStore F
      → Option (Unit {0}) × MemoryStore F
  unfolding charge_day
  charge t day workflow_id run_id cost_usd s =
      if fle cost_usd (float 0)
      then (some tt, s)
      else (let (run_total, s') =
            incr_float t.run_read t.run_written (run_key run_id) cost_usd run_key_ttl_s s in
          charge_day run_total t (day_key workflow_id day) cost_usd s')
