-- ===== src/Gateway/Service/Afford.antt =====
-- The loop of `complete` over its candidates, in gateway/service.py, and the budget that each meets.
use agent_roi_console.Common.{
  ℕ, zero, suc, ◌≡◌, refl, subst, Bool, true, false, not, List, [], ◌∷◌, String, Option, none, some,
  arith,
}
use agent_roi_console.Float.{Float, flt, ◌≼◌}
use agent_roi_console.Gateway.Pricing.{PriceTable, ModelPrice, Priced, get, actual, estimate}
use agent_roi_console.Gateway.Pricing
use agent_roi_console.Gateway.Calls.{ProviderResponse, Trial, Attempt}
use agent_roi_console.Gateway.Planning.{Step, done, refuses, crashes}
use agent_roi_console.Gateway.Planning.Fit.{Choice}
use agent_roi_console.Gateway.Service.{GatewayDeps, Moments, Gateway, Run, ◌>>=◌, lift, priced}
use agent_roi_console.Gateway.Service.Fallback.{
  Fallback, fall, read_remaining, recheck, or_next, or_skip,
}
use agent_roi_console.Gateway.Service.Logic.{Post, bind, from_step}

-- A part of `complete` whose value, if it gives one, satisfies a predicate.
abbrev pub Gives : {F S A : Type 0} → (A → Type 0) → Run F S A → Type 0
Gives {F} {S} D m = (s : Gateway F S) → Post (λ e s'. Unit) (λ s'. Unit) (λ a s'. D a) (m s)

module _ {F S : Type 0} where
  pub anything : {A : Type 0} (m : Run F S A) → Gives (λ a. Unit) m
  anything m s = any (m s)
    where
      any :
          {A : Type 0} (r : Step F A × Gateway F S)
          → Post (λ e s'. Unit) (λ s'. Unit) (λ a s'. Unit) r
      any (done a, s) = tt
      any (refuses e, s) = tt
      any (crashes, s) = tt

  pub after_giving :
      {A B : Type 0} (D : A → Type 0) (D' : B → Type 0) (m : Run F S A) (f : A → Run F S B)
      → Gives D m
      → ((a : A) → D a → Gives D' (f a))
      → Gives D' (m >>= f)
  after_giving D D' m f h k s =
      bind (λ e s'. Unit) (λ s'. Unit) (λ a s'. D a) (λ b s'. D' b) m f s (h s) (λ a s' d. k a d s')

  pub giving :
      {A : Type 0} (D : A → Type 0) (r : Step F A)
      → ((a : A) → r ≡ done a → D a)
      → Gives {S = S} D (lift r)
  giving D r h s = from_step (λ e s'. Unit) (λ s'. Unit) (λ a s'. D a) r s h (λ e k. tt) tt

  pub giving_done :
      {A : Type 0} (D : A → Type 0) (a : A) → D a → Gives {S = S} D (lift {F = F} (done a))
  unfolding lift
  giving_done D a d s = d

pub priced-ok :
    (F : Type 0) {A : Type 0} (p : Priced A) (a : A) → priced {F = F} p ≡ done a → p ≡ Pricing.ok a
priced-ok F (Pricing.ok b) a h = cc
priced-ok F (Pricing.missing_price r) a h = cc
priced-ok F Pricing.value_error a h = cc

within : {F : Type 0} ⦃fl : Float F⦄ (a b : F) → not (flt a b) ≡ true → b ≼ a
within a b h = ground arith

module _ {F : Type 0} ⦃fl : Float F⦄ (prices : PriceTable F) (prompt_tokens max_tokens : ℕ) where
  -- The estimate of a model fits an amount.
  abbrev pub Fits : String → F → Type 0
  Fits m left = (e : F) × (estimate prices m prompt_tokens max_tokens ≡ Pricing.ok e) × (e ≼ left)

  abbrev pub HeadModelFits : List String → F → Type 0
  HeadModelFits [] left = Unit
  HeadModelFits (m ∷ ms) left = Fits m left

  abbrev pub Answered : Option (String × ProviderResponse) → F → Type 0
  Answered none left = Unit
  Answered (some (m, r)) left = Fits m left

  pub Choice-head :
      (left : F) (ms chosen : List String) (o_downgraded : Bool)
      → Choice prices prompt_tokens max_tokens left ms (chosen, o_downgraded)
      → HeadModelFits chosen left
  Choice-head left ms chosen o_downgraded ([], e, p, h, _) = absurd h
  Choice-head left ms chosen o_downgraded (c ∷ cs, e, p, h, _) =
      subst (λ x. HeadModelFits x left) e (c.1, p.0, h)

module _ {F S : Type 0} ⦃fl : Float F⦄ (deps : GatewayDeps F S) (trials : ℕ → Trial F)
    (at : Moments F) where
  module _ (workflow_id run_id : String) (prompt_tokens max_tokens : ℕ) where
    recheck-Gives :
        (depth : ℕ) (m : String) (left : F)
        → (depth ≡ 0 → Fits deps.prices prompt_tokens max_tokens m left)
        → Gives
            (λ c. c.1 ≡ true → Fits deps.prices prompt_tokens max_tokens m c.0)
            (recheck deps trials at workflow_id run_id prompt_tokens max_tokens depth m left)
    unfolding recheck read_remaining
    recheck-Gives zero m left h = giving_done _ (left, true) (λ e. h refl)
    recheck-Gives (suc depth) m left h =
        after_giving (λ a. Unit) _ _ _ (anything _)
          (λ now_left u.
            after_giving (λ cost. estimate deps.prices m prompt_tokens max_tokens ≡ Pricing.ok cost)
              _ _ _ (giving _ _ (λ cost k. priced-ok F _ cost k))
              (λ cost k. giving_done _ _ (λ q. (cost, k, within now_left cost q))))

    or_next-Gives :
        (m : String) (depth : ℕ) (left : F) (attempts : List (Attempt F))
        (next : List (Attempt F) → Run F S (Fallback F))
        (called : Option ProviderResponse × List (Attempt F))
        → Fits deps.prices prompt_tokens max_tokens m left
        → ((tried : List (Attempt F))
            → Gives
                (λ f. Answered deps.prices prompt_tokens max_tokens f.response f.remaining)
                (next tried))
        → Gives
            (λ f. Answered deps.prices prompt_tokens max_tokens f.response f.remaining)
            (or_next deps trials at workflow_id run_id prompt_tokens max_tokens m depth left
              attempts next called)
    unfolding or_next
    or_next-Gives m depth left attempts next (none, tried) fits h = h _
    or_next-Gives m depth left attempts next (some r, tried) fits h = giving_done _ _ fits

    or_skip-Gives :
        (m : String) (depth : ℕ) (attempts : List (Attempt F))
        (next : F → List (Attempt F) → Run F S (Fallback F)) (check : F × Bool)
        → (check.1 ≡ true → Fits deps.prices prompt_tokens max_tokens m check.0)
        → ((left : F) (tried : List (Attempt F))
            → Gives
                (λ f. Answered deps.prices prompt_tokens max_tokens f.response f.remaining)
                (next left tried))
        → Gives
            (λ f. Answered deps.prices prompt_tokens max_tokens f.response f.remaining)
            (or_skip deps trials at workflow_id run_id prompt_tokens max_tokens m depth attempts
              next check)
    unfolding or_skip
    or_skip-Gives m depth attempts next (left, false) fits h = h left _
    or_skip-Gives m depth attempts next (left, true) fits h =
        after_giving (λ c. Unit) _ _ _ (anything _)
          (λ called u. or_next-Gives m depth left attempts (next left) called (fits refl) (h left))

    pub fall-Gives :
        (ms : List String) (depth : ℕ) (left : F) (attempts : List (Attempt F))
        → (depth ≡ 0 → HeadModelFits deps.prices prompt_tokens max_tokens ms left)
        → Gives
            (λ f. Answered deps.prices prompt_tokens max_tokens f.response f.remaining)
            (fall deps trials at workflow_id run_id prompt_tokens max_tokens ms depth left attempts)
    unfolding fall
    fall-Gives [] depth left attempts h = giving_done _ _ tt
    fall-Gives (m ∷ ms) depth left attempts h =
        after_giving (λ c. c.1 ≡ true → Fits deps.prices prompt_tokens max_tokens m c.0) _ _ _
          (recheck-Gives depth m left h)
          (λ check fits.
            or_skip-Gives m depth attempts
              (fall deps trials at workflow_id run_id prompt_tokens max_tokens ms (suc depth)) check
              fits
              (λ now_left tried.
                fall-Gives ms (suc depth) now_left tried (λ e. absurd (omega (arith, e)))))
