-- ===== src/Float.antt =====
-- Python floats: the operations that the program uses, and what it relies on. The program's own
-- numbers (US dollars, seconds, rates) are finite; NaN is left out, and comparison is total.
pub mod Laws
pub mod Scaled
use Prim.Native.Nat.{ℕ, ◌≤◌, ◌<◌}
use Prim.Native.String.{String}
use mathlib.Core.Path.{◌≡◌}
use mathlib.Core.Logic.{◌≢◌, ◌⊎◌}
use mathlib.Core.Bool.{Bool, true, not}
use mathlib.Core.Option.{Option, some}
use agent_roi_console.Common.{if◌then◌else◌}

pub record Float (F : Type 0) : Type 0 where
  -- `<=`
  pub fle : F → F → Bool
  pub add : F → F → F
  pub sub : F → F → F
  pub mul : F → F → F
  pub div : F → F → F
  -- `float(n)`, and the literals
  pub of_ℕ : ℕ → F
  pub repr : F → String
  -- `float(s)` of a text, `none` for a `ValueError`
  pub parse : String → Option F

module _ {F : Type 0} ⦃fl : Float F⦄ where
  infixl 65 ◌⊕◌ ◌⊖◌
  infixl 70 ◌⊗◌ ◌⊘◌
  infix 4 ◌≼◌
  abbrev pub ◌⊕◌ : F → F → F
  ◌⊕◌ = fl.add

  abbrev pub ◌⊖◌ : F → F → F
  ◌⊖◌ = fl.sub

  abbrev pub ◌⊗◌ : F → F → F
  ◌⊗◌ = fl.mul

  abbrev pub ◌⊘◌ : F → F → F
  ◌⊘◌ = fl.div

  abbrev pub float : ℕ → F
  float = fl.of_ℕ

  abbrev pub fle : F → F → Bool
  fle = fl.fle

  -- `a < b`
  abbrev pub flt : F → F → Bool
  flt a b = not (fl.fle b a)

  -- `min(a, b)` returns its first argument on a tie.
  abbrev pub fmin : F → F → F
  fmin a b = if flt b a then b else a

  -- `max(a, b)` likewise
  abbrev pub fmax : F → F → F
  fmax a b = if flt a b then b else a

  abbrev pub ◌≼◌ : F → F → Type 0
  a ≼ b = fl.fle a b ≡ true

-- IEEE 754 rounding to nearest keeps the order of exact results, and these follow from that.
pub record IsMonotone (F : Type 0) ⦃fl : Float F⦄ : Type 0 where
  pub fle_refl : (a : F) → a ≼ a
  pub fle_trans : (a b c : F) → a ≼ b → b ≼ c → a ≼ c
  pub fle_total : (a b : F) → (a ≼ b) ⊎ (b ≼ a)
  pub add_mono : (a b c d : F) → a ≼ b → c ≼ d → a ⊕ c ≼ b ⊕ d
  pub sub_mono : (a b c d : F) → a ≼ b → d ≼ c → a ⊖ c ≼ b ⊖ d
  pub mul_mono_left : (a b c : F) → float 0 ≼ c → a ≼ b → a ⊗ c ≼ b ⊗ c
  pub mul_mono_right : (a b c : F) → float 0 ≼ c → a ≼ b → c ⊗ a ≼ c ⊗ b
  pub div_mono : (a b c : F) → flt (float 0) c ≡ true → a ≼ b → a ⊘ c ≼ b ⊘ c
  pub float_mono : (m n : ℕ) → m ≤ n → float {F = F} m ≼ float n
  pub float_pos : (n : ℕ) → 0 < n → flt (float {F = F} 0) (float n) ≡ true
  -- adding or subtracting zero, a difference with itself, and multiples and parts of zero
  pub add_zero : (a : F) → (a ⊕ float 0 ≼ a) × (a ≼ a ⊕ float 0)
  pub sub_zero : (a : F) → (a ⊖ float 0 ≼ a) × (a ≼ a ⊖ float 0)
  pub sub_self : (a : F) → (a ⊖ a ≼ float 0) × (float 0 ≼ a ⊖ a)
  pub zero_mul : (a : F) → (float 0 ⊗ a ≼ float 0) × (float 0 ≼ float 0 ⊗ a)
  pub zero_div : (a : F) → flt (float 0) a ≡ true → float 0 ≼ float 0 ⊘ a

-- `float(repr(x))` gives `x` back, and `repr` is never the empty text.
pub record HasRepr (F : Type 0) ⦃fl : Float F⦄ : Type 0 where
  pub parse-repr : (a : F) → fl.parse (fl.repr a) ≡ some a
  pub repr_ne : (a : F) → fl.repr a ≢ ""
