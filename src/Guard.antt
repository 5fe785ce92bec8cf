-- ===== src/Guard.antt =====
-- guard/state_machine.py: the phases of a workflow's ROI guard and the decision of one evaluation.
pub mod Choice
pub mod Decision
pub mod Window
pub mod Service
use agent_roi_console.Common.{
  ℕ, ◌-◌, Bool, true, false, ◌&&◌, not, List, [], ◌∷◌, foldl, String, Option, none, some, length,
  take, drop, keep_if, ltb, leb, ◌==◌, str_eq, text_lt, if◌then◌else◌,
}
use agent_roi_console.Common.Dict.{Dict}
use agent_roi_console.Float.{Float, fle, flt, float, ◌⊕◌}

pub data Phase : Type 0 where
  normal downgraded paused : Phase

pub data Action : Type 0 where
  no_action downgrade pause recover : Action

pub record GuardConfig (F : Type 0) : Type 0 where
  pub min_runs : ℕ
  pub path_success_bar : F

pub record GuardState : Type 0 where
  pub workflow_id : String
  pub active_path : String
  pub phase : Phase
  pub phase_run_offset : ℕ

pub record PathStats (F : Type 0) : Type 0 where
  pub success_rate : F
  pub mean_cost_usd : F

-- The text of a decision, by its parts.
pub data Detail (F : Type 0) : Type 0 where
  paused_until_resumed : Detail F
  too_few_runs : ℕ → ℕ → Detail F
  net_non_negative : Detail F
  net_negative : F → ℕ → String → String → Detail F
  still_negative : F → ℕ → Detail F
  recovered : Detail F

pub record GuardDecision (F : Type 0) : Type 0 where
  pub action : Action
  pub new_state : GuardState
  pub window_runs : ℕ
  pub net_roi_usd : Option F
  pub detail : Detail F

-- What `window_for` reads of a run: `seq` counts the runs before it.
pub record SeqRun (A : Type 0) : Type 0 where
  pub seq : ℕ
  pub run : A

-- `cheapest_qualifying_path(...) or state.active_path`: an empty name is no name.
abbrev pub or_active : Option String → String → String
or_active none active = active
or_active (some p) active = if str_eq p "" then active else p

abbrev pub is_downgraded : Phase → Bool
is_downgraded downgraded = true
is_downgraded _ = false

abbrev pub is_paused : Phase → Bool
is_paused paused = true
is_paused _ = false

-- `run_list[-n:]`, where `[-0:]` is the whole list
abbrev pub last_runs {ℓ} : {A : Type ℓ} → ℕ → List A → List A
last_runs n xs = if n == 0 then xs else drop (length xs - n) xs

module _ {F : Type 0} ⦃fl : Float F⦄ where
  -- `(cost, path) < (cost', path')`: by the first part in which the pairs differ
  abbrev pub pair_lt : F × String → F × String → Bool
  pair_lt (c, p) (d, q) = if fle c d && fle d c then text_lt p q else flt c d

  -- The pairs of `qualifying_list`.
  unfoldable pub qualifying : Dict (PathStats F) → F → List (F × String)
  qualifying [] bar = []
  qualifying ((p, s) ∷ d) bar =
      let rest = qualifying d bar in
      if fle bar s.success_rate then (s.mean_cost_usd, p) ∷ rest else rest

  unfoldable pub pick : F × String → F × String → F × String
  pick best x = if pair_lt x best then x else best

  -- `min` keeps the first of the least elements.
  unfoldable pub least : F × String → List (F × String) → F × String
  least best [] = best
  least best (x ∷ xs) = least (pick best x) xs

  least_path : List (F × String) → Option String
  least_path [] = none
  least_path (x ∷ xs) = some (least x xs).1

  unfoldable pub cheapest_qualifying_path : Dict (PathStats F) → F → Option String
  unfolding least_path qualifying least pick
  cheapest_qualifying_path stats bar = least_path (qualifying stats bar)

  abbrev pub total : List F → F
  total nets = foldl (◌⊕◌) (float 0) nets

  net_of : List F → Option F
  net_of [] = none
  net_of (x ∷ xs) = some (total (x ∷ xs))

  decide_normal : GuardState → ℕ → F → ℕ → Dict (PathStats F) → GuardConfig F → GuardDecision F
  decide_normal state window net total_runs path_stats config =
      if fle (float 0) net
      then record {
        action = no_action;
        new_state = state;
        window_runs = window;
        net_roi_usd = some net;
        detail = net_non_negative;
      }
      else (let target =
            or_active (cheapest_qualifying_path path_stats config.path_success_bar)
              state.active_path in
          record {
            action = downgrade;
            new_state = record state {
              active_path = target;
              phase = downgraded;
              phase_run_offset = total_runs;
            };
            window_runs = window;
            net_roi_usd = some net;
            detail = net_negative net window state.active_path target;
          })

  decide_downgraded : GuardState → ℕ → F → ℕ → GuardDecision F
  decide_downgraded state window net total_runs =
      if flt net (float 0)
      then record {
        action = pause;
        new_state = record state { phase = paused; phase_run_offset = total_runs };
        window_runs = window;
        net_roi_usd = some net;
        detail = still_negative net window;
      }
      else record {
        action = recover;
        new_state = record state { phase = normal; phase_run_offset = total_runs };
        window_runs = window;
        net_roi_usd = some net;
        detail = recovered;
      }

  abbrev pub stay : GuardState → ℕ → Option F → Detail F → GuardDecision F
  stay state window net detail = record {
    action = no_action;
    new_state = state;
    window_runs = window;
    net_roi_usd = net;
    detail = detail;
  }

  -- The branches behind the window test. `none` is the `TypeError` of comparing `None` with 0,
  -- which an empty window meets if `min_runs` is 0.
  decide :
      Phase
      → Option F
      → GuardState
      → ℕ
      → ℕ
      → Dict (PathStats F)
      → GuardConfig F
      → Option (GuardDecision F)
  decide normal (some net) state window total_runs stats config =
      some (decide_normal state window net total_runs stats config)
  decide downgraded (some net) state window total_runs stats config =
      some (decide_downgraded state window net total_runs)
  decide paused net state window total_runs stats config =
      some (stay state window net paused_until_resumed)
  decide _ none state window total_runs stats config = none

  unfoldable pub evaluate :
      GuardState → List F → ℕ → Dict (PathStats F) → GuardConfig F → Option (GuardDecision F)
  unfolding decide decide_normal decide_downgraded net_of
  evaluate state net_by_run total_runs path_stats config =
      let window = length net_by_run in
      let net = net_of net_by_run in
      if is_paused state.phase
      then some (stay state window net paused_until_resumed)
      else if ltb window config.min_runs
      then some (stay state window net (too_few_runs window config.min_runs))
      else decide state.phase net state window total_runs path_stats config

module _ {A : Type 0} where
  window_in : Phase → ℕ → List (SeqRun A) → ℕ → List (SeqRun A)
  window_in downgraded offset runs min_runs = take min_runs (keep_if (λ r. leb offset r.seq) runs)
  window_in _ offset runs min_runs =
      if leb min_runs (length runs) then last_runs min_runs runs else runs

  unfoldable pub window_for : GuardState → List (SeqRun A) → ℕ → List (SeqRun A)
  unfolding window_in
  window_for state runs min_runs = window_in state.phase state.phase_run_offset runs min_runs
