-- ===== src/Float/Fixed.antt =====
-- Fixed-point numbers with six decimals, rounded towards zero: an arithmetic that meets every law of
-- `IsOrdered`. Examples and tests run on it.
use native.Mathlib.Nat.{
  mul-le-mul_left, mul-le-mul_right, le_of_mul-le-mul_right, le-div_iff_mul-le, div-mul-le_self,
  div-le_of_le-mul,
}
use semaforo.Prelude.{
  ℕ, suc, ◌+◌, ◌*◌, ◌/◌, ◌≤◌, ◌<◌, ◌≡◌, refl, true, ◌⊎◌, arith, leb, ℤ, pos, negsuc, pos_part,
  neg_part, sub_ℕ, leb_ℤ, ◌+ℤ◌, ◌-ℤ◌,
}
use semaforo.Float.{Float, IsOrdered, ◌≼◌, ◌≺◌}

abbrev pub scale : ℕ
scale = 1_000_000

abbrev pub mul_fixed : ℤ → ℤ → ℤ
mul_fixed a b =
    sub_ℕ ((pos_part a * pos_part b + neg_part a * neg_part b) / 1_000_000)
      ((pos_part a * neg_part b + neg_part a * pos_part b) / 1_000_000)

abbrev pub div_fixed : ℤ → ℤ → ℤ
div_fixed a (pos k) = sub_ℕ (pos_part a * 1_000_000 / k) (neg_part a * 1_000_000 / k)
div_fixed a (negsuc k) = sub_ℕ (neg_part a * 1_000_000 / suc k) (pos_part a * 1_000_000 / suc k)

abbrev pub neg_fixed : ℤ → ℤ
neg_fixed a = sub_ℕ (neg_part a) (pos_part a)

instance abbrev pub fixed : Float ℤ
fixed = record {
  le = leb_ℤ;
  add = ◌+ℤ◌;
  sub = ◌-ℤ◌;
  mul = mul_fixed;
  div = div_fixed;
  neg = neg_fixed;
  ratio = λ n d. pos (n * 1_000_000 / d);
  truncate = λ a. sub_ℕ (pos_part a / 1_000_000) (neg_part a / 1_000_000);
}

le→leb : (a b : ℕ) → a ≤ b → leb a b ≡ true
le→leb a b h = ground arith

div-le-div : (a b k : ℕ) → a ≤ b → a / k ≤ b / k
div-le-div a b k h = grind arith

div-le-div_cross : (a b d e : ℕ) → 0 < d → 0 < e → a * e ≤ b * d → a / d ≤ b / e
div-le-div_cross a b d e h k l = (le-div_iff_mul-le k).1 (
    le_of_mul-le-mul_right {m = a / d * e} {n = b} {k = d}
      (omega (arith, mul-le-mul_right e (div-mul-le_self a d))) h)

fixed-le_total : (x y : ℤ) → (x ≼ y) ⊎ (y ≼ x)
fixed-le_total x y = ground arith

fixed-add_mono : (a b c d : ℤ) → a ≼ b → c ≼ d → fixed.add a c ≼ fixed.add b d
fixed-add_mono a b c d h k = ground arith

fixed-sub_mono : (a b c d : ℤ) → a ≼ b → d ≼ c → fixed.sub a c ≼ fixed.sub b d
fixed-sub_mono a b c d h k = ground arith

fixed-mul_mono : (c a b : ℤ) → pos 0 ≼ c → a ≼ b → fixed.mul c a ≼ fixed.mul c b
fixed-mul_mono (pos c) (pos a) (pos b) h k =
    ground (arith, mul-le-mul_left {m = a} {n = b} c (ground arith))
fixed-mul_mono (pos c) (negsuc a) (pos b) h k = ground arith
fixed-mul_mono (pos c) (pos a) (negsuc b) h k = ground arith
fixed-mul_mono (pos c) (negsuc a) (negsuc b) h k =
    ground (arith, mul-le-mul_left {m = suc b} {n = suc a} c (ground arith))
fixed-mul_mono (negsuc c) a b h k = ground arith

fixed-div_mono : (c a b : ℤ) → pos 0 ≺ c → a ≼ b → fixed.div a c ≼ fixed.div b c
fixed-div_mono (pos c) (pos a) (pos b) h k =
    ground (arith, div-le-div (a * 1_000_000) (b * 1_000_000) c (ground arith))
fixed-div_mono (pos c) (negsuc a) (pos b) h k = ground arith
fixed-div_mono (pos c) (pos a) (negsuc b) h k = ground arith
fixed-div_mono (pos c) (negsuc a) (negsuc b) h k =
    ground (arith, div-le-div (suc b * 1_000_000) (suc a * 1_000_000) c (ground arith))
fixed-div_mono (negsuc c) a b h k = ground arith

fixed-ratio_mono : (n d m e : ℕ) → 0 < d → 0 < e → n * e ≤ m * d → fixed.ratio n d ≼ fixed.ratio m e
fixed-ratio_mono n d m e h k l =
    ground (arith, div-le-div_cross (n * 1_000_000) (m * 1_000_000) d e h k (omega arith))

fixed-div_self_le : (c : ℤ) → pos 0 ≺ c → fixed.div c c ≼ fixed.ratio 1 1
fixed-div_self_le (pos c) h =
    ground (arith, div-le_of_le-mul c {m = c * 1_000_000} {n = 1_000_000} (omega arith))
fixed-div_self_le (negsuc c) h = ground arith

fixed-truncate_mono : (a b : ℤ) → a ≼ b → leb_ℤ (fixed.truncate a) (fixed.truncate b) ≡ true
fixed-truncate_mono a b h = ground arith

fixed-ratio_pos : (n d : ℕ) → 0 < d → d ≤ n * 1_000_000 → pos 0 ≺ fixed.ratio n d
fixed-ratio_pos n d h k =
    ground (arith, (le-div_iff_mul-le {k = d} {x = 1} {y = n * 1_000_000} h).1 (omega arith))

pub fixed-IsOrdered : IsOrdered ℤ
fixed-IsOrdered = record {
  le_refl = λ x. ground arith;
  le_trans = λ x y z h k. ground arith;
  le_total = fixed-le_total;
  add_mono = fixed-add_mono;
  add-zero_le = λ a. ground arith;
  le-add_zero = λ a. ground arith;
  le-zero_add = λ a. ground arith;
  sub_mono = fixed-sub_mono;
  sub-zero_le = λ a. ground arith;
  sub_self_le = λ a. ground arith;
  le-sub_self = λ a. ground arith;
  neg_anti = λ a b h. ground arith;
  neg-zero_le = refl;
  le-neg_zero = refl;
  neg-add_le = λ a b. ground arith;
  mul_mono = fixed-mul_mono;
  mul_comm = λ a b. ground arith;
  mul-zero_le = λ c. ground arith;
  le-mul_zero = λ c. ground arith;
  mul-one_le = λ c. ground arith;
  neg-le-mul_neg_one = λ c. ground arith;
  div_mono = fixed-div_mono;
  le-div_zero = λ c h. ground arith;
  div-zero_le = λ c h. ground arith;
  div_self_le = fixed-div_self_le;
  ratio_mono = fixed-ratio_mono;
  truncate_mono = fixed-truncate_mono;
  ratio_pos = fixed-ratio_pos;
}
