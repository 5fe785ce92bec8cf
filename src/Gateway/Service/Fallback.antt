-- ===== src/Gateway/Service/Fallback.antt =====
-- The loop of `complete` over the candidate models, in gateway/service.py.
use agent_roi_console.Common.{
  ℕ, zero, suc, ◌-◌, Bool, true, false, not, List, [], ◌∷◌, ◌++◌, String, Option, none, some,
}
use agent_roi_console.Common.Dict.{contains}
use agent_roi_console.Float.{Float, flt}
use agent_roi_console.Gateway.Pricing.{get, estimate}
use agent_roi_console.Gateway.Budgets.{remaining}
use agent_roi_console.Gateway.Calls.{
  ProviderResponse, Trial, Attempt, budget_skip, skip, call_model,
}
use agent_roi_console.Gateway.Planning.{done}
use agent_roi_console.Gateway.Service.{GatewayDeps, Moments, Run, ◌>>=◌, lift, on_memory, priced}

-- The variables of `complete` behind the loop.
pub record Fallback (F : Type 0) : Type 0 where
  -- the chosen model and its response
  pub response : Option (String × ProviderResponse)
  pub depth : ℕ
  pub remaining : F
  pub attempts : List (Attempt F)

module _ {F S : Type 0} ⦃fl : Float F⦄ (deps : GatewayDeps F S) (trials : ℕ → Trial F)
    (at : Moments F) (workflow_id run_id : String) (prompt_tokens max_tokens : ℕ) where
  -- What is left of the budget when the candidate of a depth is tried.
  unfoldable pub read_remaining : ℕ → Run F S F
  read_remaining depth = on_memory (
      remaining (at.budget_reads depth).0 (at.budget_reads depth).1 at.day deps.budgets workflow_id
        run_id)

  -- The first candidate goes ahead; a later one only if its estimate is within the budget.
  unfoldable pub recheck : ℕ → String → F → Run F S (F × Bool)
  unfolding read_remaining
  recheck zero model left = lift (done (left, true))
  recheck (suc depth) model left = do
    now_left ← read_remaining (suc depth)
    cost ← lift (priced (estimate deps.prices model prompt_tokens max_tokens))
    lift (done (now_left, not (flt now_left cost)))

  -- `_call_model` of a candidate, whose price names the adapter.
  unfoldable pub call : String → Run F S (Option ProviderResponse × List (Attempt F))
  call model = do
    price ← lift (priced (get deps.prices model))
    λ s.
        let (response, tried, circuits) =
          call_model deps.factory trials model (contains price.provider deps.adapters)
            deps.settings.retries s.circuits in
        (done (response, tried), record s { circuits = circuits })

  -- `break` at a response; without one the loop goes on with the attempts so far.
  unfoldable pub or_next :
      String
      → ℕ
      → F
      → List (Attempt F)
      → (List (Attempt F) → Run F S (Fallback F))
      → Option ProviderResponse × List (Attempt F)
      → Run F S (Fallback F)
  or_next m depth left attempts next (none, tried) = next (attempts ++ tried)
  or_next m depth left attempts next (some r, tried) = lift (
      done (record {
        response = some (m, r);
        depth = depth;
        remaining = left;
        attempts = attempts ++ tried;
      }))

  -- `continue` where the candidate does not fit.
  unfoldable pub or_skip :
      String
      → ℕ
      → List (Attempt F)
      → (F → List (Attempt F) → Run F S (Fallback F))
      → F × Bool
      → Run F S (Fallback F)
  unfolding or_next call
  or_skip m depth attempts next (left, false) = next left (attempts ++ skip m budget_skip none ∷ [])
  or_skip m depth attempts next (left, true) = do
    called ← call m
    or_next m depth left attempts (next left) called

  -- The models left, the depth of the first of them, and the attempts so far.
  unfoldable pub fall : List String → ℕ → F → List (Attempt F) → Run F S (Fallback F)
  unfolding recheck or_skip
  fall [] depth left attempts =
      lift (
        done (record { response = none; depth = depth - 1; remaining = left; attempts = attempts }))
  fall (m ∷ ms) depth left attempts = do
    check ← recheck depth m left
    or_skip m depth attempts (fall ms (suc depth)) check
