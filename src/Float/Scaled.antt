-- ===== src/Float/Scaled.antt =====
-- An instance that meets the laws: integers, as scaled amounts. It runs in tests and witnesses.
use Prim.Native.Nat.{ℕ, zero, suc, ◌+◌, ◌-◌, ◌*◌, ◌/◌, ◌≤◌}
use Prim.Native.Char.{code}
use Prim.Native.String.{String}
use mathlib.Core.Path.{◌≡◌, refl, ap, ap₂}
use mathlib.Core.Logic.{◌≢◌, ◌⊎◌}
use mathlib.Core.Bool.{Bool, true, not}
use mathlib.Core.Option.{Option, none, some}
use native.Mathlib.Omega.{arith}
use agent_roi_console.Common.{leb, leb→le, ◌==◌, if◌then◌else◌}
use agent_roi_console.Float.{Float, IsMonotone, HasRepr}

-- `negsuc n` is -(n + 1).
pub data ℤ : Type 0 where
  pos : ℕ → ℤ
  negsuc : ℕ → ℤ

abbrev pub pos_part : ℤ → ℕ
pos_part (pos n) = n
pos_part (negsuc n) = 0

abbrev pub neg_part : ℤ → ℕ
neg_part (pos n) = 0
neg_part (negsuc n) = suc n

-- a - b, as an integer.
abbrev pub sub_ℕ : ℕ → ℕ → ℤ
sub_ℕ a b = if leb b a then pos (a - b) else negsuc (b - a - 1)

abbrev pub le_ℤ : ℤ → ℤ → Bool
le_ℤ a b = leb (pos_part a + neg_part b) (pos_part b + neg_part a)

abbrev pub add_ℤ : ℤ → ℤ → ℤ
add_ℤ a b = sub_ℕ (pos_part a + pos_part b) (neg_part a + neg_part b)

abbrev pub neg_ℤ : ℤ → ℤ
neg_ℤ a = sub_ℕ (neg_part a) (pos_part a)

abbrev pub subtract_ℤ : ℤ → ℤ → ℤ
subtract_ℤ a b = sub_ℕ (pos_part a + neg_part b) (neg_part a + pos_part b)

abbrev pub mul_ℤ : ℤ → ℤ → ℤ
mul_ℤ a b =
    sub_ℕ (pos_part a * pos_part b + neg_part a * neg_part b)
      (pos_part a * neg_part b + neg_part a * pos_part b)

-- Division rounds towards zero.
abbrev pub div_ℤ : ℤ → ℤ → ℤ
div_ℤ a (pos m) = sub_ℕ (pos_part a / m) (neg_part a / m)
div_ℤ a (negsuc m) = sub_ℕ (neg_part a / suc m) (pos_part a / suc m)

-- A numeral in unary, behind its sign.
strokes : ℕ → String
strokes zero = String.[]
strokes (suc n) = String.◌∷◌ "1" (strokes n)

count_strokes : String → ℕ
count_strokes String.[] = 0
count_strokes (String.◌∷◌ c s) = suc (count_strokes s)

count_strokes-strokes : (n : ℕ) → count_strokes (strokes n) ≡ n
unfolding count_strokes strokes
count_strokes-strokes zero = refl
count_strokes-strokes (suc n) = ap suc (count_strokes-strokes n)

unfoldable pub repr_ℤ : ℤ → String
unfolding strokes
repr_ℤ (pos n) = String.◌∷◌ "+" (strokes n)
repr_ℤ (negsuc n) = String.◌∷◌ "-" (strokes n)

unfoldable pub parse_ℤ : String → Option ℤ
unfolding count_strokes
parse_ℤ String.[] = none
parse_ℤ (String.◌∷◌ c s) =
    if code c == b'-' then some (negsuc (count_strokes s)) else some (pos (count_strokes s))

pub parse_ℤ-repr_ℤ : (a : ℤ) → parse_ℤ (repr_ℤ a) ≡ some a
unfolding parse_ℤ repr_ℤ
parse_ℤ-repr_ℤ (pos n) = ap (λ k. some (pos k)) (count_strokes-strokes n)
parse_ℤ-repr_ℤ (negsuc n) = ap (λ k. some (negsuc k)) (count_strokes-strokes n)

pub repr_ℤ_ne : (a : ℤ) → repr_ℤ a ≢ ""
unfolding repr_ℤ
repr_ℤ_ne (pos n) e = cc
repr_ℤ_ne (negsuc n) e = cc

instance abbrev pub scaled : Float ℤ
scaled = record {
  fle = le_ℤ;
  add = add_ℤ;
  sub = subtract_ℤ;
  mul = mul_ℤ;
  div = div_ℤ;
  of_ℕ = pos;
  repr = repr_ℤ;
  parse = parse_ℤ;
}

le_trans : (a b c : ℤ) → le_ℤ a b ≡ true → le_ℤ b c ≡ true → le_ℤ a c ≡ true
le_trans a b c h k = ground arith

le_total : (a b : ℤ) → (le_ℤ a b ≡ true) ⊎ (le_ℤ b a ≡ true)
le_total a b = ground arith

add_mono : (a b c d : ℤ) → le_ℤ a b ≡ true → le_ℤ c d ≡ true → le_ℤ (add_ℤ a c) (add_ℤ b d) ≡ true
add_mono a b c d h k = ground arith

sub_mono :
    (a b c d : ℤ)
    → le_ℤ a b ≡ true
    → le_ℤ d c ≡ true
    → le_ℤ (subtract_ℤ a c) (subtract_ℤ b d) ≡ true
sub_mono a b c d h k = ground arith

-- `le_ℤ` of two differences of natural numbers.
le-sub_ℕ : (a b c d : ℕ) → a + d ≤ c + b → le_ℤ (sub_ℕ a b) (sub_ℕ c d) ≡ true
le-sub_ℕ a b c d h = ground arith

le_mul : (a b m : ℕ) → a ≤ b → a * m ≤ b * m
le_mul a b m h = grind arith

mul_mono_left :
    (a b c : ℤ) → le_ℤ (pos 0) c ≡ true → le_ℤ a b ≡ true → le_ℤ (mul_ℤ a c) (mul_ℤ b c) ≡ true
mul_mono_left a b (negsuc m) h k = ground arith
mul_mono_left a b (pos m) h k =
    le-sub_ℕ _ _ _ _
      (omega (arith, le_mul (pos_part a + neg_part b) (pos_part b + neg_part a) m (leb→le _ _ k)))

mul_comm_ℤ : (a b : ℤ) → mul_ℤ a b ≡ mul_ℤ b a
mul_comm_ℤ a b = ap₂ sub_ℕ (omega arith) (omega arith)

mul_mono_right :
    (a b c : ℤ) → le_ℤ (pos 0) c ≡ true → le_ℤ a b ≡ true → le_ℤ (mul_ℤ c a) (mul_ℤ c b) ≡ true
mul_mono_right a b c h k = rw (mul_comm_ℤ c a, mul_comm_ℤ c b) (mul_mono_left a b c h k)

div_le : (a b m : ℕ) → a ≤ b → a / suc m ≤ b / suc m
div_le a b m h = grind arith

div_mono :
    (a b c : ℤ)
    → not (le_ℤ c (pos 0)) ≡ true
    → le_ℤ a b ≡ true
    → le_ℤ (div_ℤ a c) (div_ℤ b c) ≡ true
div_mono a b (negsuc m) h k = ground arith
div_mono a b (pos zero) h k = ground arith
div_mono (pos a) (pos b) (pos (suc m)) h k =
    le-sub_ℕ _ _ _ _ (omega (arith, div_le a b m (ground arith)))
div_mono (pos a) (negsuc b) (pos (suc m)) h k = ground arith
div_mono (negsuc a) (pos b) (pos (suc m)) h k = le-sub_ℕ _ _ _ _ (omega arith)
div_mono (negsuc a) (negsuc b) (pos (suc m)) h k =
    le-sub_ℕ _ _ _ _ (omega (arith, div_le (suc b) (suc a) m (ground arith)))

pub scaled-IsMonotone : IsMonotone ℤ
scaled-IsMonotone = record {
  fle_refl = λ a. ground arith;
  fle_trans = le_trans;
  fle_total = le_total;
  add_mono = add_mono;
  sub_mono = sub_mono;
  mul_mono_left = mul_mono_left;
  mul_mono_right = mul_mono_right;
  div_mono = div_mono;
  float_mono = λ m n h. ground arith;
  float_pos = λ n h. ground arith;
  add_zero = λ a. (ground arith, ground arith);
  sub_zero = λ a. (ground arith, ground arith);
  sub_self = λ a. (ground arith, ground arith);
  zero_mul = λ a. (ground arith, ground arith);
  zero_div = λ a h. ground arith;
}

pub scaled-HasRepr : HasRepr ℤ
scaled-HasRepr = record { parse-repr = parse_ℤ-repr_ℤ; repr_ne = repr_ℤ_ne }
