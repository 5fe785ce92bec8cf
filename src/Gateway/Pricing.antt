-- ===== src/Gateway/Pricing.antt =====
-- gateway/pricing.py: model prices, the computed price of the self-hosted model, and call costs.
pub mod Bounds
pub mod Load
use agent_roi_console.Common.{
  ℕ, ◌≡◌, refl, Bool, true, false, not, List, [], ◌∷◌, map, String, Option, none, some, join,
  if◌then◌else◌,
}
use agent_roi_console.Common.Dict.{Dict, lookup, contains, insert}
use agent_roi_console.Float.{Float, fle, flt, float, ◌⊕◌, ◌⊗◌, ◌⊘◌}

pub record ModelPrice (F : Type 0) : Type 0 where
  pub model : String
  pub provider : String
  pub provider_model : String
  pub input_per_mtok : F
  pub output_per_mtok : F
  pub source : String
  pub as_of : String
  pub o_computed : Bool

-- A `ValueError`, a missing price with its reason, or a result.
pub data Priced {ℓ} (A : Type ℓ) : Type ℓ where
  ok : A → Priced A
  missing_price : String → Priced A
  value_error : Priced A

infixl 5 ◌>>=◌
abbrev pub ◌>>=◌ {ℓ κ} : {A : Type ℓ} {B : Type κ} → Priced A → (A → Priced B) → Priced B
ok a >>= f = f a
missing_price reason >>= f = missing_price reason
value_error >>= f = value_error

pub bind-eq-ok {ℓ κ} :
    {A : Type ℓ} {B : Type κ} (m : Priced A) (f : A → Priced B) {b : B}
    → (m >>= f) ≡ ok b
    → (a : A) × (m ≡ ok a) × (f a ≡ ok b)
bind-eq-ok (ok a) f h = (a, refl, h)
bind-eq-ok (missing_price r) f h = cc
bind-eq-ok value_error f h = cc

-- An entry of the models in pricing.yaml.
pub record FixedEntry (F : Type 0) : Type 0 where
  pub provider : String
  pub provider_model : String
  pub input_per_mtok : F
  pub output_per_mtok : F
  pub source : String
  pub as_of : String

pub data Entry (F : Type 0) : Type 0 where
  -- `pricing: computed`, with the provider and the provider's model
  computed : String → String → Entry F
  fixed : FixedEntry F → Entry F

-- The `selfhosted` section and the metrics of the throughput results file.
pub record SelfHosted (F : Type 0) : Type 0 where
  pub host_hour_usd : F
  pub host_hour_source : String
  pub as_of : String
  -- the path of the results file, and its last part
  pub results_path : String
  pub results_name : String

pub record Throughput (F : Type 0) : Type 0 where
  pub prompt_tokens_per_second : F
  pub output_tokens_per_second : F

pub record PriceTable (F : Type 0) : Type 0 where
  pub prices : Dict (ModelPrice F)
  pub unpriced : Dict String

module _ {F : Type 0} ⦃fl : Float F⦄ where
  abbrev pub seconds_per_hour : F
  seconds_per_hour = float 3600

  abbrev pub tokens_per_mtok : F
  tokens_per_mtok = float 1000000

  unfoldable pub price_per_mtok : F → F → Priced F
  price_per_mtok host_hour_usd tokens_per_second =
      if fle tokens_per_second (float 0)
      then value_error
      else if flt host_hour_usd (float 0)
      then value_error
      else ok (host_hour_usd ⊘ seconds_per_hour ⊘ tokens_per_second ⊗ tokens_per_mtok)

  -- The results file, by its name, is `none` before it is written.
  unfoldable pub computed_selfhosted_price :
      String → String → String → SelfHosted F → Option (Throughput F) → Priced (ModelPrice F)
  computed_selfhosted_price model provider provider_model host none =
      missing_price (join (model ∷ ": " ∷ host.results_path ∷ " not measured yet" ∷ []))
  computed_selfhosted_price model provider provider_model host (some m) = do
    input ← price_per_mtok host.host_hour_usd m.prompt_tokens_per_second
    output ← price_per_mtok host.host_hour_usd m.output_tokens_per_second
    ok (record {
      model = model;
      provider = provider;
      provider_model = provider_model;
      input_per_mtok = input;
      output_per_mtok = output;
      source = join ("computed from " ∷ host.results_name ∷ " and " ∷ host.host_hour_source ∷ []);
      as_of = host.as_of;
      o_computed = true;
    })

  fixed_price : String → FixedEntry F → ModelPrice F
  fixed_price model e = record {
    model = model;
    provider = e.provider;
    provider_model = e.provider_model;
    input_per_mtok = e.input_per_mtok;
    output_per_mtok = e.output_per_mtok;
    source = e.source;
    as_of = e.as_of;
    o_computed = false;
  }

  -- The `except MissingPriceError` of `load`: a missing price is noted with its reason.
  file_price : String → Priced (ModelPrice F) → PriceTable F → Priced (PriceTable F)
  file_price model (ok p) t = ok (record t { prices = insert model p t.prices })
  file_price model (missing_price r) t = ok (record t { unpriced = insert model r t.unpriced })
  file_price model value_error t = value_error

  entry_price : SelfHosted F → Option (Throughput F) → String → Entry F → Priced (ModelPrice F)
  entry_price host measured model (computed provider provider_model) =
      computed_selfhosted_price model provider provider_model host measured
  entry_price host measured model (fixed e) = ok (fixed_price model e)

  load_entries :
      SelfHosted F
      → Option (Throughput F)
      → List (String × Entry F)
      → PriceTable F
      → Priced (PriceTable F)
  load_entries host measured [] t = ok t
  load_entries host measured ((model, e) ∷ rest) t =
      file_price model (entry_price host measured model e) t >>= load_entries host measured rest

  unfoldable pub load :
      SelfHosted F → Option (Throughput F) → List (String × Entry F) → Priced (PriceTable F)
  unfolding load_entries file_price entry_price fixed_price computed_selfhosted_price price_per_mtok
  load host measured entries =
      load_entries host measured entries (record { prices = []; unpriced = [] })

  unfoldable pub has : PriceTable F → String → Bool
  has t model = contains model t.prices

  missing : String → Option String → Priced (ModelPrice F)
  missing model none = missing_price (join (model ∷ ": " ∷ "not in configs/pricing.yaml" ∷ []))
  missing model (some reason) = missing_price (join (model ∷ ": " ∷ reason ∷ []))

  unfoldable pub get : PriceTable F → String → Priced (ModelPrice F)
  unfolding missing
  get t model = elim (lookup model t.prices) [
    | some p ↦ ok p
    | none ↦ missing model (lookup model t.unpriced)
  ]

  -- The cost of token counts at a price.
  unfoldable pub token_cost : ModelPrice F → ℕ → ℕ → F
  token_cost p input output =
      (float input ⊗ p.input_per_mtok ⊕ float output ⊗ p.output_per_mtok) ⊘ tokens_per_mtok

  unfoldable pub estimate : PriceTable F → String → ℕ → ℕ → Priced F
  unfolding get token_cost
  estimate t model prompt_tokens max_tokens = do
    p ← get t model
    ok (token_cost p prompt_tokens max_tokens)

  unfoldable pub actual : PriceTable F → String → ℕ → ℕ → Priced F
  unfolding get token_cost
  actual t model input_tokens output_tokens = do
    p ← get t model
    ok (token_cost p input_tokens output_tokens)
