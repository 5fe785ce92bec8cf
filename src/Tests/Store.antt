-- ===== src/Tests/Store.antt =====
-- gateway/store.py, gateway/budgets.py and gateway/ratelimit.py at concrete clocks.
use agent_roi_console.Common.{
  ℕ, ◌≡◌, refl, subst, ◌≢◌, inl, inr, true, false, [], ◌∷◌, Option, none, some,
}
use agent_roi_console.Common.Dict.{lookup, insert}
use agent_roi_console.Float.Scaled.{ℤ, pos, scaled, scaled-IsMonotone, scaled-HasRepr, parse_ℤ}
use agent_roi_console.Gateway.Store.{
  MemoryStore, take_tokens, get_float, incr_float, live, to_float,
}
use agent_roi_console.Gateway.Store.Buckets.{IsBucket, take_tokens-IsBucket}
use agent_roi_console.Gateway.Store.Values.{get_float-incr_float}
use agent_roi_console.Gateway.Budgets.{BudgetConfig, ChargeTimes, charge, spent, run_key, day_key}
use agent_roi_console.Gateway.Budgets.Charge.{spent-charge}
use agent_roi_console.Gateway.RateLimit.{
  RateLimit, Poll, waited, exceeded, waiting, rounds, take_request, take_cost,
}
use agent_roi_console.Gateway.RateLimit.Wait.{rounds-decides}

abbrev store : MemoryStore ℤ
store = record {
  values = ("budget:run:r1", ("+111", pos 9000000)) ∷ [];
  buckets = ("rl:crm:requests", (pos 3, pos 10)) ∷ [];
}

abbrev bucket_IsBucket : IsBucket (pos 10) (pos 12) (pos 3, pos 10)
bucket_IsBucket = record { nonneg = refl; within = refl; past = refl }

buckets_IsBucket :
    (b : ℤ × ℤ) → lookup "rl:crm:requests" store.buckets ≡ some b → IsBucket (pos 10) (pos 12) b
unfolding lookup
buckets_IsBucket b e = subst (λ o. IsBucket (pos 10) (pos 12) (or_bucket o)) e bucket_IsBucket
  where
    or_bucket : Option (ℤ × ℤ) → ℤ × ℤ
    or_bucket none = (pos 0, pos 0)
    or_bucket (some c) = c

take_tokens-IsBucket_example :
    let (taken, s') = take_tokens (pos 12) "rl:crm:requests" (pos 10) (pos 2) (pos 6) store in
    (lookup "rl:crm:requests" s'.buckets ≡ some (taken.1, pos 12))
    × IsBucket (pos 10) (pos 12) (taken.1, pos 12)
take_tokens-IsBucket_example =
    take_tokens-IsBucket scaled-IsMonotone (pos 12) (pos 10) (pos 2) (pos 6) "rl:crm:requests" store
      refl refl refl buckets_IsBucket

taken_run :
    (take_tokens (pos 12) "rl:crm:requests" (pos 10) (pos 2) (pos 6) store).0 ≡ (true, pos 1)
unfolding take_tokens lookup
taken_run = refl

stored_run : (get_float (pos 5) "budget:run:r1" store).0 ≡ some (pos 3)
unfolding get_float live to_float lookup parse_ℤ
stored_run = refl

get_float-incr_float_example :
    (get_float
      (pos 7)
      "budget:run:r1"
      (incr_float (pos 5) (pos 6) "budget:run:r1" (pos 4) 60 store).1).0
    ≡ some (pos 7)
get_float-incr_float_example =
    get_float-incr_float scaled-HasRepr (pos 5) (pos 6) (pos 7) (pos 4) (pos 3) "budget:run:r1" 60
      store stored_run refl

abbrev times : ChargeTimes ℤ
times = record { run_read = pos 5; run_written = pos 5; day_read = pos 6; day_written = pos 6 }

abbrev budgets : BudgetConfig ℤ
budgets = record {
  defaults = record { per_run_usd = pos 100; per_workflow_daily_usd = pos 500 };
  overrides = ("crm", record { per_run_usd = pos 20; per_workflow_daily_usd = pos 50 }) ∷ [];
}

run_before : (get_float (pos 5) (run_key "r1") store).0 ≡ some (pos 3)
unfolding get_float live to_float lookup parse_ℤ
run_before = refl

day_before : (get_float (pos 6) (day_key "crm" "2026-01-01") store).0 ≡ some (pos 0)
unfolding get_float live to_float lookup
day_before = refl

spent-charge_example :
    (spent
      (pos 7)
      (pos 7)
      "2026-01-01"
      "crm"
      "r1"
      (charge times "2026-01-01" "crm" "r1" (pos 4) store).1).0
    ≡ some (pos 7, pos 4)
spent-charge_example =
    spent-charge scaled-IsMonotone scaled-HasRepr times "2026-01-01" "crm" "r1" (pos 4) store
      (pos 3) (pos 0) (pos 7) (pos 7) refl run_before day_before refl refl

abbrev limit : RateLimit ℤ
limit = record { requests_per_minute = pos 60; tokens_per_minute = pos 600 }

abbrev poll : ℕ → Poll ℤ
poll n = record { request_at = pos n; tokens_at = pos n; ended_at = pos n }

abbrev drained : MemoryStore ℤ
drained = record {
  values = [];
  buckets = ("rl:crm:requests", (pos 0, pos 0)) ∷ ("rl:crm:tokens", (pos 0, pos 0)) ∷ [];
}

-- One request a second and ten tokens: 30 tokens are there at 3.
waited_run :
    (rounds (poll 0 ∷ poll 1 ∷ poll 3 ∷ []) false (pos 0) limit (pos 30) (pos 5) "crm" drained).0
    ≡ waited (pos 3)
unfolding rounds take_request take_cost take_tokens lookup insert
waited_run = refl

exceeded_run :
    (rounds (poll 0 ∷ poll 1 ∷ poll 5 ∷ []) false (pos 0) limit (pos 90) (pos 5) "crm" drained).0
    ≡ exceeded
unfolding rounds take_request take_cost take_tokens lookup insert
exceeded_run = refl

rounds-decides_example :
    (rounds (poll 0 ∷ poll 1 ∷ poll 5 ∷ []) false (pos 0) limit (pos 90) (pos 5) "crm" drained).0
    ≢ waiting
rounds-decides_example =
    rounds-decides (pos 0) limit (pos 90) (pos 5) "crm" (poll 0 ∷ poll 1 ∷ poll 5 ∷ []) (poll 5)
      false drained (inr (inr (inl refl))) refl
