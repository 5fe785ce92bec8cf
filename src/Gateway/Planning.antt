-- ===== src/Gateway/Planning.antt =====
-- The first half of gateway/service.py: validation of a request, its plan of models, and the fit to
-- the budget; with the request of gateway/schemas.py. The JSON texts of messages and tools are
-- given with the request, as `json.dumps` makes them.
pub mod Metadata
pub mod Fit
pub mod Refusals
use agent_roi_console.Common.{
  ℕ, ◌≡◌, refl, subst, arith, ◌+◌, ◌*◌, ◌/◌, Bool, true, false, not, List, [], ◌∷◌, map, String,
  Option, none, some, length, size, str_eq, ◌==◌, keep_if, if◌then◌else◌,
}
use agent_roi_console.Common.Dict.{Dict, lookup, insert}
use agent_roi_console.Common.Sort.{sorted}
use agent_roi_console.Float.{Float, fle}
use agent_roi_console.Gateway.Router.{RoutingTable, RoutePlan, plan_route, table_models}
use agent_roi_console.Gateway.Pricing.{PriceTable, Priced, has, estimate}
use agent_roi_console.Gateway.Pricing
use agent_roi_console.Gateway.Calls.{Attempt}

pub record Message : Type 0 where
  pub role : Option String
  pub content : Option String

-- `ChatCompletionRequest`, as far as the gateway reads it.
pub record Request : Type 0 where
  pub model : String
  pub messages : List Message
  pub messages_json : String
  -- the text of the tools, if there are any
  pub tools_json : Option String
  pub max_tokens : Option ℕ
  pub max_completion_tokens : Option ℕ
  pub metadata : Option (Dict String)

abbrev pub default_max_tokens : ℕ
default_max_tokens = 1024

-- `a or b`, where `None` and 0 are false
abbrev pub or_number : Option ℕ → ℕ → ℕ
or_number none d = d
or_number (some n) d = if n == 0 then d else n

unfoldable pub resolved_max_tokens : Request → ℕ
resolved_max_tokens r =
    or_number r.max_tokens (or_number r.max_completion_tokens default_max_tokens)

abbrev pub or_empty : Option String → String
or_empty none = ""
or_empty (some t) = t

unfoldable pub estimate_prompt_tokens : Request → ℕ
unfolding size
estimate_prompt_tokens r =
    (size r.messages_json + size (or_empty r.tools_json)) / 4 + 4 * length r.messages

pub record StepClass (F : Type 0) : Type 0 where
  pub cacheable : Bool
  pub min_step_success : F

pub record CallSettings (F : Type 0) : Type 0 where
  pub retries : ℕ
  pub min_step_success : F
  pub routed_model : String
  pub o_strict : Bool

-- `GatewayError`, by its code and what it reports.
pub data GatewayError (F : Type 0) : Type 0 where
  missing_metadata : List String → GatewayError F
  unknown_model : String → GatewayError F
  routing_table_missing : GatewayError F
  unknown_step_class : String → GatewayError F
  no_priced_candidate : String → GatewayError F
  rate_limited : GatewayError F
  budget_exhausted : F → List (String × F) → GatewayError F
  all_providers_failed : List (Attempt F) → GatewayError F

unfoldable pub status : {F : Type 0} → GatewayError F → ℕ
status (missing_metadata fields) = 400
status (unknown_model model) = 400
status routing_table_missing = 503
status (unknown_step_class name) = 400
status (no_priced_candidate name) = 503
status rate_limited = 429
status (budget_exhausted remaining estimates) = 402
status (all_providers_failed attempts) = 502

-- What a step of `complete` gives: a value, a `GatewayError`, or another exception of Python.
pub data Step {ℓ} (F : Type 0) (A : Type ℓ) : Type ℓ where
  done : A → Step F A
  refuses : GatewayError F → Step F A
  crashes : Step F A

-- What holds of the value, if a step gives one.
abbrev pub Ensures {ℓ} : {F : Type 0} {A : Type ℓ} → (A → Type 0) → Step F A → Type 0
Ensures P (done a) = P a
Ensures P (refuses e) = Unit
Ensures P crashes = Unit

pub Ensures-done {ℓ} :
    {F : Type 0} {A : Type ℓ} (P : A → Type 0) (r : Step F A) {a : A}
    → r ≡ done a
    → Ensures P r
    → P a
Ensures-done P (done b) e h = subst P (ground arith) h
Ensures-done P (refuses x) e h = cc
Ensures-done P crashes e h = cc

pub Ensures-if {ℓ} :
    {F : Type 0} {A : Type ℓ} (P : A → Type 0) (b : Bool) (r s : Step F A)
    → (b ≡ true → Ensures P r)
    → (b ≡ false → Ensures P s)
    → Ensures P (if b then r else s)
Ensures-if P true r s h k = h refl
Ensures-if P false r s h k = k refl

abbrev pub metadata_fields : List String
metadata_fields = "workflow_id" ∷ "run_id" ∷ "step_id" ∷ "step_class" ∷ []

-- `not metadata_dict.get(f)`
abbrev pub is_missing : Dict String → String → Bool
is_missing d f = str_eq (or_empty (lookup f d)) ""

fill_unknown : List String → Dict String → Dict String
fill_unknown [] d = d
fill_unknown (f ∷ fs) d = fill_unknown fs (insert f "unknown" d)

set_default : String → String → Dict String → Dict String
set_default k v d = elim (lookup k d) [ none ↦ insert k v d | some _ ↦ d ]

abbrev pub or_no_metadata : Option (Dict String) → Dict String
or_no_metadata none = []
or_no_metadata (some d) = d

module _ {F : Type 0} where
  checked : Bool → List String → Dict String → Step F (Dict String)
  checked o_strict [] d = done (set_default "cache" "on" d)
  checked true (f ∷ fs) d = refuses (missing_metadata (f ∷ fs))
  checked false (f ∷ fs) d = done (set_default "cache" "on" (fill_unknown (f ∷ fs) d))

  -- `_metadata`
  unfoldable pub metadata : CallSettings F → Request → Step F (Dict String)
  unfolding checked set_default fill_unknown
  metadata settings r =
      let d = or_no_metadata r.metadata in
      checked settings.o_strict (keep_if (is_missing d) metadata_fields) d

module _ {F : Type 0} ⦃fl : Float F⦄ (settings : CallSettings F) (prices : PriceTable F)
    (table : Option (RoutingTable F)) (step_classes : Dict (StepClass F)) where
  bar_of : Option (StepClass F) → F
  bar_of none = settings.min_step_success
  bar_of (some c) = c.min_step_success

  priced_only : String → Bool → List String → Step F (List String × Bool)
  priced_only step_class below [] = refuses (no_priced_candidate step_class)
  priced_only step_class below (m ∷ ms) = done (m ∷ ms, below)

  routed : String → Option RoutePlan → Step F (List String × Bool)
  routed step_class none = refuses (unknown_step_class step_class)
  routed step_class (some p) = priced_only step_class p.o_below_bar (keep_if (has prices) p.models)

  with_table : Option (RoutingTable F) → String → Step F (List String × Bool)
  with_table none step_class = refuses routing_table_missing
  with_table (some t) step_class =
      routed step_class (plan_route t step_class (bar_of (lookup step_class step_classes)))

  -- `_plan`, for the step class in the metadata
  unfoldable pub plan : String → String → Step F (List String × Bool)
  unfolding with_table routed priced_only bar_of
  plan model step_class =
      if str_eq model settings.routed_model
      then with_table table step_class
      else if has prices model
      then done (model ∷ [], false)
      else refuses (unknown_model model)

abbrev pub names : {F : Type 0} → List (String × F) → List String
names es = map (λ e. e.0) es

module _ {F : Type 0} ⦃fl : Float F⦄ where
  abbrev pub fits : F → String × F → Bool
  fits left a = fle a.1 left

  abbrev pub by_estimate : String × F → String × F → Bool
  by_estimate a b = fle a.1 b.1

module _ {F : Type 0} ⦃fl : Float F⦄ (prices : PriceTable F) where
  with_estimate : String → Priced F → Option (List (String × F)) → Option (List (String × F))
  with_estimate m (Pricing.ok e) (some es) = some ((m, e) ∷ es)
  with_estimate m _ _ = none

  -- The estimates of a plan, by model; `none` where a price is missing.
  unfoldable pub estimates : List String → ℕ → ℕ → Option (List (String × F))
  unfolding with_estimate
  estimates [] prompt_tokens max_tokens = some []
  estimates (m ∷ ms) prompt_tokens max_tokens =
      with_estimate m (estimate prices m prompt_tokens max_tokens)
        (estimates ms prompt_tokens max_tokens)

  downgraded : F → List (String × F) → List (String × F) → Step F (List String × Bool)
  downgraded left all [] = refuses (budget_exhausted left all)
  downgraded left all (e ∷ es) = done (names (e ∷ es), true)

  fit : F → List (String × F) → Step F (List String × Bool)
  fit left [] = crashes
  fit left ((m, e) ∷ es) =
      if fle e left
      then done (names ((m, e) ∷ es), false)
      else downgraded left ((m, e) ∷ es) (sorted by_estimate (keep_if (fits left) ((m, e) ∷ es)))

  -- `_fit_budget`, given what is left of the budget
  unfoldable pub fit_budget : F → List String → ℕ → ℕ → Step F (List String × Bool)
  unfolding fit downgraded
  fit_budget left models prompt_tokens max_tokens =
      elim (estimates models prompt_tokens max_tokens) [ none ↦ crashes | some es ↦ fit left es ]

-- `missing_price_models`: a model of the table whose price is missing.
unfoldable pub missing_price_models :
    {F : Type 0} ⦃fl : Float F⦄ → RoutingTable F → PriceTable F → List String
unfolding table_models
missing_price_models table prices =
    keep_if (λ m. is_price_missing (Pricing.get prices m)) (table_models table)
  where
    is_price_missing : {A : Type 0} → Priced A → Bool
    is_price_missing (Pricing.ok p) = false
    is_price_missing (Pricing.missing_price reason) = true
    is_price_missing Pricing.value_error = false
