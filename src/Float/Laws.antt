-- ===== src/Float/Laws.antt =====
-- Consequences of the order laws of floats that several components use.
use agent_roi_console.Common.{arith}
use agent_roi_console.Float.{Float, IsMonotone, fmin, float, ◌⊕◌, ◌⊖◌, ◌⊗◌, ◌≼◌}

module _ {F : Type 0} ⦃fl : Float F⦄ (laws : IsMonotone F) where
  pub fmin-le : (a b : F) → (fmin a b ≼ a) × (fmin a b ≼ b)
  fmin-le a b = ground (arith, laws.fle_total a b, laws.fle_refl a, laws.fle_refl b)

  pub fmin_mono : (a b c d : F) → a ≼ c → b ≼ d → fmin a b ≼ fmin c d
  fmin_mono a b c d h k =
      ground (arith, laws.fle_total a b, laws.fle_trans a b d, laws.fle_trans b a c)

  pub sub_nonneg : (a b : F) → a ≼ b → float 0 ≼ b ⊖ a
  sub_nonneg a b h =
      laws.fle_trans _ _ _ (laws.sub_self a).1 (laws.sub_mono a b a a h (laws.fle_refl a))

  pub mul_nonneg : (a b : F) → float 0 ≼ a → float 0 ≼ b → float 0 ≼ a ⊗ b
  mul_nonneg a b h k =
      laws.fle_trans _ _ _ (laws.zero_mul b).1 (laws.mul_mono_left (float 0) a b k h)

  pub le-add_nonneg : (a b : F) → float 0 ≼ b → a ≼ a ⊕ b
  le-add_nonneg a b h =
      laws.fle_trans _ _ _ (laws.add_zero a).1 (laws.add_mono a a (float 0) b (laws.fle_refl a) h)

  pub add_nonneg : (a b : F) → float 0 ≼ a → float 0 ≼ b → float 0 ≼ a ⊕ b
  add_nonneg a b h k = laws.fle_trans _ _ _ h (le-add_nonneg a b k)

  pub sub_nonneg-le : (a b : F) → float 0 ≼ b → a ⊖ b ≼ a
  sub_nonneg-le a b h =
      laws.fle_trans _ _ _ (laws.sub_mono a a b (float 0) (laws.fle_refl a) h) (laws.sub_zero a).0
