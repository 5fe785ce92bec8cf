-- ===== src/Gateway/Pricing/Bounds.antt =====
-- The costs of gateway/pricing.py, and how they answer to token counts.
use mathlib.Core.Path.{subst₂}
use agent_roi_console.Common.{ℕ, ◌≤◌, ◌≡◌, String, arith}
use agent_roi_console.Float.{Float, IsMonotone, float, ◌≼◌}
use agent_roi_console.Gateway.Pricing.{
  ModelPrice, ok, PriceTable, get, token_cost, estimate, actual, ◌>>=◌, bind-eq-ok, tokens_per_mtok,
}

-- The prices are not negative.
pub record IsPrice {F : Type 0} ⦃fl : Float F⦄ (p : ModelPrice F) : Type 0 where
  pub input_nonneg : float 0 ≼ p.input_per_mtok
  pub output_nonneg : float 0 ≼ p.output_per_mtok

module _ {F : Type 0} ⦃fl : Float F⦄ (laws : IsMonotone F) where
  pub token_cost_mono :
      (p : ModelPrice F) (i j m n : ℕ)
      → IsPrice p
      → i ≤ j
      → m ≤ n
      → token_cost p i m ≼ token_cost p j n
  unfolding token_cost
  token_cost_mono p i j m n nonneg h k =
      laws.div_mono _ _ tokens_per_mtok (laws.float_pos 1000000 (omega arith)) (
        laws.add_mono _ _ _ _ (laws.mul_mono_left _ _ _ nonneg.input_nonneg (laws.float_mono i j h))
          (laws.mul_mono_left _ _ _ nonneg.output_nonneg (laws.float_mono m n k)))

  cost-of-get :
      (t : PriceTable F) (model : String) (input output : ℕ) (p : ModelPrice F) (a : F)
      → (get t model >>= λ q. ok (token_cost q input output)) ≡ ok a
      → get t model ≡ ok p
      → token_cost p input output ≡ a
  cost-of-get t model input output p a h g = ground arith

  -- At prices that are not negative, a call that uses no more tokens than were estimated costs no
  -- more than the estimate.
  pub actual-le-estimate :
      (t : PriceTable F) (model : String) (prompt max_tokens input output : ℕ) (e a : F)
      → ((p : ModelPrice F) → get t model ≡ ok p → IsPrice p)
      → estimate t model prompt max_tokens ≡ ok e
      → actual t model input output ≡ ok a
      → input ≤ prompt
      → output ≤ max_tokens
      → a ≼ e
  unfolding estimate actual
  actual-le-estimate t model prompt max_tokens input output e a nonneg he ha h k =
      let (p, g, _) = bind-eq-ok (get t model) _ he in
      subst₂ ◌≼◌ (cost-of-get t model input output p a ha g)
        (cost-of-get t model prompt max_tokens p e he g)
        (token_cost_mono p input prompt output max_tokens (nonneg p g) h k)
