-- ===== src/Gateway/Router.antt =====
-- gateway/router.py: the routing table and the order in which models are tried.
pub mod Order
use agent_roi_console.Common.{
  ℕ, ◌++◌, str_eq, text_le, Bool, true, false, ◌&&◌, not, List, [], ◌∷◌, map, String, Option, none,
  some, keep_if, if◌then◌else◌,
}
use agent_roi_console.Common.Dict.{Dict, lookup}
use agent_roi_console.Common.Sort.{sorted}
use agent_roi_console.Float.{Float, fle, flt}

pub record Candidate (F : Type 0) : Type 0 where
  pub model : String
  pub step_success : F
  pub n_trials : ℕ
  pub mean_cost_usd : F

pub record RoutePlan : Type 0 where
  pub models : List String
  pub o_below_bar : Bool

-- Step class to candidates.
abbrev pub RoutingTable : Type 0 → Type 0
RoutingTable F = Dict (List (Candidate F))

-- The elements of a set, each once.
unfoldable pub distinct : List String → List String
distinct [] = []
distinct (x ∷ xs) = x ∷ keep_if (λ y. not (str_eq y x)) (distinct xs)

module _ {F : Type 0} where
  abbrev pub model_names : List (Candidate F) → List String
  model_names cs = map (λ c. c.model) cs

module _ {F : Type 0} ⦃fl : Float F⦄ where
  -- `sorted` by the mean cost: `b` may stand behind `a` unless its cost is less.
  abbrev pub cheaper : Candidate F → Candidate F → Bool
  cheaper a b = fle a.mean_cost_usd b.mean_cost_usd

  -- `sorted` by the pair of the negated success and the mean cost.
  abbrev pub better : Candidate F → Candidate F → Bool
  better a b =
      if fle a.step_success b.step_success && fle b.step_success a.step_success
      then fle a.mean_cost_usd b.mean_cost_usd
      else fle b.step_success a.step_success

  -- The candidates of `load`, each class sorted by cost.
  unfoldable pub load : Dict (List (Candidate F)) → RoutingTable F
  load [] = []
  load ((step_class, entry) ∷ rest) = (step_class, sorted cheaper entry) ∷ load rest

  unfoldable pub names_of : RoutingTable F → List String
  names_of [] = []
  names_of ((step_class, cs) ∷ rest) = model_names cs ++ names_of rest

  -- `models`
  unfoldable pub table_models : RoutingTable F → List String
  unfolding distinct names_of
  table_models table = sorted text_le (distinct (names_of table))

  -- `none` is the `KeyError` of an unknown step class.
  unfoldable pub candidates : RoutingTable F → String → Option (List (Candidate F))
  candidates table step_class = lookup step_class table

  abbrev pub meets : F → Candidate F → Bool
  meets bar c = fle bar c.step_success

  ranked : List (Candidate F) → List (Candidate F) → RoutePlan
  ranked (c ∷ cs) all = record { models = model_names (c ∷ cs); o_below_bar = false }
  ranked [] all = record { models = model_names (sorted better all); o_below_bar = true }

  -- The order of `plan_route`, for the candidates of its step class.
  unfoldable pub order : List (Candidate F) → F → RoutePlan
  unfolding ranked
  order all min_step_success = ranked (keep_if (meets min_step_success) all) all

  unfoldable pub plan_route : RoutingTable F → String → F → Option RoutePlan
  unfolding candidates
  plan_route table step_class min_step_success = elim (candidates table step_class) [
    | none ↦ none
    | some all ↦ some (order all min_step_success)
  ]
