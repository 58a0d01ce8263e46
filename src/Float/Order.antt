-- ===== src/Float/Order.antt =====
-- What follows from the laws of `IsOrdered`: the range of `clip` and of sums.
use semaforo.Prelude.{◌≡◌, arith}
use semaforo.Float.{Float, IsOrdered, ◌≼◌, ◌≺◌, max_f, clip}

module _ {W : Type 0} ⦃f : Float W⦄ (laws : IsOrdered W) where
  open laws use {
    le_refl, le_trans, le_total, add_mono, le-add_zero, mul_mono, mul_comm, div_mono, le-div_zero,
    ratio_mono,
  }

  pub zero-le-one : f.ratio 0 1 ≼ f.ratio 1 1
  zero-le-one = ratio_mono 0 1 1 1 (omega arith) (omega arith) (omega arith)

  pub mul_mono_left : (c a b : W) → f.ratio 0 1 ≼ c → a ≼ b → f.mul a c ≼ f.mul b c
  mul_mono_left c a b h k = rw (mul_comm a c, mul_comm b c) (mul_mono c a b h k)

  pub div_nonneg : (c a : W) → f.ratio 0 1 ≺ c → f.ratio 0 1 ≼ a → f.ratio 0 1 ≼ f.div a c
  div_nonneg c a h k = le_trans _ _ _ (le-div_zero c h) (div_mono c _ a h k)

  pub le-add : (a b : W) → f.ratio 0 1 ≼ b → a ≼ f.add a b
  le-add a b h = le_trans _ _ _ (le-add_zero a) (add_mono a a _ b (le_refl a) h)

  pub le_of_lt : (x y : W) → x ≺ y → x ≼ y
  le_of_lt x y h = ground (arith, le_total x y)

  -- Between two bounds in order, `clip` stays between them.
  pub clip_bounds : (x lo hi : W) → lo ≼ hi → (lo ≼ clip x lo hi) × (clip x lo hi ≼ hi)
  unfolding clip
  clip_bounds x lo hi h =
      ground (arith, le_total x lo, le_total hi x, le_refl lo, le_refl hi, le_total hi lo)

  pub clip_id : (x lo hi : W) → lo ≼ x → x ≼ hi → clip x lo hi ≡ x
  unfolding clip
  clip_id x lo hi h k = ground arith

  pub clip-le_max : (x lo hi : W) → clip x lo hi ≼ max_f x lo
  unfolding clip
  clip-le_max x lo hi = ground (arith, le_total hi (max_f x lo), le_refl (max_f x lo))

  pub lt_of_lt_of_le : (x y z : W) → x ≺ y → y ≼ z → x ≺ z
  lt_of_lt_of_le x y z h k = ground (arith, le_trans y z x)

  pub lt_max : (x a b : W) → x ≺ b → x ≺ max_f a b
  lt_max x a b h = ground (arith, lt_of_lt_of_le x b a, le_total a b)

  pub le_max : (a b : W) → (a ≼ max_f a b) × (b ≼ max_f a b)
  le_max a b = ground (arith, le_total a b, le_refl a, le_refl b)
