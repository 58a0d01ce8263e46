-- ===== src/Float.antt =====
-- Python's `float` and numpy's `float32`/`float64`, as far as the program uses them: an arithmetic
-- on some type of numbers, a parameter of every model below. `IsOrdered` lists the laws of IEEE
-- arithmetic that the proofs use: they hold for rounded results too, away from NaN and overflow.
-- Equations of numbers are stated by the order, since 0.0 and -0.0 compare as equal.
pub mod Order
pub mod Fixed
use semaforo.Prelude.{
  ℕ, ◌*◌, ◌≤◌, ◌<◌, ◌≡◌, Bool, true, not, ◌⊎◌, List, [], ◌∷◌, if◌then◌else◌, ℤ, leb_ℤ,
}

pub record Float (W : Type 0) : Type 0 where
  pub le : W → W → Bool
  pub add : W → W → W
  pub sub : W → W → W
  pub mul : W → W → W
  pub div : W → W → W
  pub neg : W → W
  -- the float nearest to n / d: the decimal literals and the integers that are converted
  pub ratio : ℕ → ℕ → W
  -- int(x)
  pub truncate : W → ℤ

infix 4 ◌≼◌ ◌≺◌
abbrev pub ◌≼◌ : {W : Type 0} ⦃f : Float W⦄ → W → W → Type 0
◌≼◌ ⦃f⦄ x y = f.le x y ≡ true

-- x < y, as a test
abbrev pub lt : {W : Type 0} ⦃f : Float W⦄ → W → W → Bool
lt ⦃f⦄ x y = not (f.le y x)

abbrev pub ◌≺◌ : {W : Type 0} ⦃f : Float W⦄ → W → W → Type 0
x ≺ y = lt x y ≡ true

abbrev pub zero_f : {W : Type 0} ⦃f : Float W⦄ → W
zero_f ⦃f⦄ = f.ratio 0 1

abbrev pub one_f : {W : Type 0} ⦃f : Float W⦄ → W
one_f ⦃f⦄ = f.ratio 1 1

-- max(a, b) and min(a, b), which keep the first of two equal arguments
abbrev pub max_f : {W : Type 0} ⦃f : Float W⦄ → W → W → W
max_f a b = if lt a b then b else a

abbrev pub min_f : {W : Type 0} ⦃f : Float W⦄ → W → W → W
min_f a b = if lt b a then b else a

-- np.clip(x, lo, hi)
unfoldable pub clip : {W : Type 0} ⦃f : Float W⦄ → W → W → W → W
clip x lo hi = min_f (max_f x lo) hi

-- np.clip(x, 0.0, 1.0)
abbrev pub clip01 : {W : Type 0} ⦃f : Float W⦄ → W → W
clip01 ⦃f⦄ x = clip x zero_f one_f

-- sum(xs), from the left
unfoldable pub sum_from : {W : Type 0} ⦃f : Float W⦄ → W → List W → W
sum_from acc [] = acc
sum_from ⦃f⦄ acc (x ∷ xs) = sum_from (f.add acc x) xs

unfoldable pub sum_f : {W : Type 0} ⦃f : Float W⦄ → List W → W
unfolding sum_from
sum_f xs = sum_from zero_f xs

pub record IsOrdered (W : Type 0) ⦃f : Float W⦄ : Type 0 where
  pub le_refl : (x : W) → x ≼ x
  pub le_trans : (x y z : W) → x ≼ y → y ≼ z → x ≼ z
  pub le_total : (x y : W) → (x ≼ y) ⊎ (y ≼ x)
  pub add_mono : (a b c d : W) → a ≼ b → c ≼ d → f.add a c ≼ f.add b d
  pub add-zero_le : (a : W) → f.add a zero_f ≼ a
  pub le-add_zero : (a : W) → a ≼ f.add a zero_f
  pub le-zero_add : (a : W) → a ≼ f.add zero_f a
  pub sub_mono : (a b c d : W) → a ≼ b → d ≼ c → f.sub a c ≼ f.sub b d
  pub sub-zero_le : (a : W) → f.sub a zero_f ≼ a
  pub sub_self_le : (a : W) → f.sub a a ≼ zero_f
  pub le-sub_self : (a : W) → zero_f ≼ f.sub a a
  pub neg_anti : (a b : W) → a ≼ b → f.neg b ≼ f.neg a
  pub neg-zero_le : f.neg zero_f ≼ zero_f
  pub le-neg_zero : zero_f ≼ f.neg zero_f
  pub neg-add_le : (a b : W) → f.neg (f.add a b) ≼ f.add (f.neg a) (f.neg b)
  pub mul_mono : (c a b : W) → zero_f ≼ c → a ≼ b → f.mul c a ≼ f.mul c b
  pub mul_comm : (a b : W) → f.mul a b ≡ f.mul b a
  pub mul-zero_le : (c : W) → f.mul c zero_f ≼ zero_f
  pub le-mul_zero : (c : W) → zero_f ≼ f.mul c zero_f
  pub mul-one_le : (c : W) → f.mul c one_f ≼ c
  pub neg-le-mul_neg_one : (c : W) → f.neg c ≼ f.mul c (f.neg one_f)
  pub div_mono : (c a b : W) → zero_f ≺ c → a ≼ b → f.div a c ≼ f.div b c
  pub le-div_zero : (c : W) → zero_f ≺ c → zero_f ≼ f.div zero_f c
  pub div-zero_le : (c : W) → zero_f ≺ c → f.div zero_f c ≼ zero_f
  pub div_self_le : (c : W) → zero_f ≺ c → f.div c c ≼ one_f
  pub ratio_mono : (n d m e : ℕ) → 0 < d → 0 < e → n * e ≤ m * d → f.ratio n d ≼ f.ratio m e
  pub truncate_mono : (a b : W) → a ≼ b → leb_ℤ (f.truncate a) (f.truncate b) ≡ true
  -- a literal of at least a millionth is positive
  pub ratio_pos : (n d : ℕ) → 0 < d → d ≤ n * 1_000_000 → zero_f ≺ f.ratio n d
