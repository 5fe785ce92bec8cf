-- ===== src/Tests/Gateway.antt =====
-- gateway/router.py and gateway/pricing.py at concrete candidates and prices.
use agent_roi_console.Common.{
  ℕ, ◌≡◌, refl, ◌≢◌, true, false, List, [], ◌∷◌, String, some, arith, All, keep_if,
}
use agent_roi_console.Common.Dict.{Dict, lookup, insert}
use agent_roi_console.Common.Sort.{sorted, insert_sorted, IsSorted}
use agent_roi_console.Float.{◌≼◌}
use agent_roi_console.Float.Scaled.{ℤ, pos, scaled, scaled-IsMonotone}
use agent_roi_console.Gateway.Router.{
  Candidate, RoutePlan, cheaper, load, meets, plan_route, order, candidates,
}
use agent_roi_console.Gateway.Router.Order.{Names, plan_route-qualifying}
use agent_roi_console.Gateway.Pricing.{
  ModelPrice, Entry, FixedEntry, computed, fixed, SelfHosted, Throughput, PriceTable, has, get,
  estimate, actual, token_cost,
}
use agent_roi_console.Gateway.Pricing
use agent_roi_console.Gateway.Pricing.Bounds.{IsPrice, actual-le-estimate}

abbrev candidate : String → ℕ → ℕ → Candidate ℤ
candidate model success cost = record {
  model = model;
  step_success = pos success;
  n_trials = 50;
  mean_cost_usd = pos cost;
}

abbrev entries : Dict (List (Candidate ℤ))
entries =
    ("extract", candidate "large" 95 30 ∷ candidate "small" 90 4 ∷ candidate "tiny" 50 1 ∷ []) ∷ []

abbrev at_bar : RoutePlan
at_bar = record { models = "small" ∷ "large" ∷ []; o_below_bar = false }

abbrev below_bar : RoutePlan
below_bar = record { models = "large" ∷ "small" ∷ "tiny" ∷ []; o_below_bar = true }

at_bar_run : plan_route (load entries) "extract" (pos 90) ≡ some at_bar
unfolding plan_route candidates load order sorted insert_sorted lookup
at_bar_run = refl

below_bar_run : plan_route (load entries) "extract" (pos 99) ≡ some below_bar
unfolding plan_route candidates load order sorted insert_sorted lookup
below_bar_run = refl

plan_route-qualifying_example :
    (all : List (Candidate ℤ)) × (lookup "extract" (load entries) ≡ some all)
    × Names (keep_if (meets (pos 90)) all) ("small" ∷ "large" ∷ [])
    × (keep_if (meets (pos 90)) all ≢ [])
    × All (λ c. pos 90 ≼ c.step_success) (keep_if (meets (pos 90)) all)
    × IsSorted cheaper (keep_if (meets (pos 90)) all)
plan_route-qualifying_example =
    plan_route-qualifying scaled-IsMonotone entries "extract" (pos 90) at_bar at_bar_run refl

-- Prices of a million tokens.
abbrev price : String → ℕ → ℕ → ModelPrice ℤ
price model input output = record {
  model = model;
  provider = "openai";
  provider_model = model;
  input_per_mtok = pos input;
  output_per_mtok = pos output;
  source = "list";
  as_of = "2026-01-01";
  o_computed = false;
}

abbrev prices : PriceTable ℤ
prices = record {
  prices = ("large", price "large" 3000000 9000000) ∷ ("small", price "small" 1000000 2000000) ∷ [];
  unpriced = [];
}

abbrev large_IsPrice : IsPrice (price "large" 3000000 9000000)
large_IsPrice = record { input_nonneg = refl; output_nonneg = refl }

get-large : get prices "large" ≡ Pricing.ok (price "large" 3000000 9000000)
unfolding get lookup
get-large = refl

large-nonneg : (p : ModelPrice ℤ) → get prices "large" ≡ Pricing.ok p → IsPrice p
unfolding get lookup
large-nonneg p e = ground (arith, large_IsPrice)

estimate_run : estimate prices "large" 10 20 ≡ Pricing.ok (pos 210)
unfolding estimate get lookup token_cost
estimate_run = refl

actual_run : actual prices "large" 8 20 ≡ Pricing.ok (pos 204)
unfolding actual get lookup token_cost
actual_run = refl

actual-le-estimate_example : pos 204 ≼ pos 210
actual-le-estimate_example =
    actual-le-estimate scaled-IsMonotone prices "large" 10 20 8 20 (pos 210) (pos 204) large-nonneg
      estimate_run actual_run (omega arith) (omega arith)

abbrev small_entry : FixedEntry ℤ
small_entry = record {
  provider = "openai";
  provider_model = "small";
  input_per_mtok = pos 1;
  output_per_mtok = pos 2;
  source = "list";
  as_of = "2026-01-01";
}

abbrev price_entries : List (String × Entry ℤ)
price_entries = ("small", fixed small_entry) ∷ ("local", computed "vllm" "llama") ∷ []

abbrev host : SelfHosted ℤ
host = record {
  host_hour_usd = pos 36;
  host_hour_source = "lease";
  as_of = "2026-01-01";
  results_path = "results/throughput.json";
  results_name = "throughput.json";
}

abbrev measured : Throughput ℤ
measured = record { prompt_tokens_per_second = pos 100; output_tokens_per_second = pos 10 }

abbrev loaded : PriceTable ℤ
loaded = record {
  prices =
      (
        "small",
        record {
          model = "small";
          provider = "openai";
          provider_model = "small";
          input_per_mtok = pos 1;
          output_per_mtok = pos 2;
          source = "list";
          as_of = "2026-01-01";
          o_computed = false;
        },
      )
      ∷ (
        "local",
        record {
          model = "local";
          provider = "vllm";
          provider_model = "llama";
          input_per_mtok = pos 0;
          output_per_mtok = pos 0;
          source = "computed from throughput.json and lease";
          as_of = "2026-01-01";
          o_computed = true;
        },
      )
      ∷ [];
  unpriced = [];
}

load_run : Pricing.load host (some measured) price_entries ≡ Pricing.ok loaded
unfolding Pricing.load insert
load_run = refl
