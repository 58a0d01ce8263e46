-- ===== src/Rewards/Base.antt =====
-- What the reward functions share: observations, and penalties between -1 and 0.
use semaforo.Prelude.{List}
use semaforo.Prelude.Dict.{Dict}
use semaforo.Float.{Float, IsOrdered, ◌≼◌, clip01}
use semaforo.Float.Order.{zero-le-one, clip_bounds}

-- `dict | np.ndarray`, and anything else
pub data Observation (W : Type 0) : Type 0 where
  dict : Dict (List W) → Observation W
  array : List W → Observation W
  other : Observation W

module _ {W : Type 0} ⦃f : Float W⦄ where
  abbrev pub IsPenalty : W → Type 0
  IsPenalty r = (f.neg (f.ratio 1 1) ≼ r) × (r ≼ f.ratio 0 1)

  -- What a sum of penalties with the given weights lies between: minus the sum of the weights, and 0.
  abbrev pub IsPenaltyWithin : W → W → Type 0
  IsPenaltyWithin w r = (f.neg w ≼ r) × (r ≼ f.ratio 0 1)

module _ {W : Type 0} ⦃f : Float W⦄ (laws : IsOrdered W) where
  open laws use {
    le_refl, le_trans, neg_anti, neg-zero_le, neg-add_le, add_mono, add-zero_le, mul_mono,
    mul-zero_le, neg-le-mul_neg_one,
  }

  pub neg-IsPenalty : (x : W) → f.ratio 0 1 ≼ x → x ≼ f.ratio 1 1 → IsPenalty (f.neg x)
  neg-IsPenalty x h k = (neg_anti _ _ k, le_trans _ _ _ (neg_anti _ _ h) neg-zero_le)

  pub neg-clip-IsPenalty : (x : W) → IsPenalty (f.neg (clip01 x))
  neg-clip-IsPenalty x =
      let (low, high) = clip_bounds laws x (f.ratio 0 1) (f.ratio 1 1) (zero-le-one laws) in
      neg-IsPenalty (clip01 x) low high

  pub zero-IsPenalty : IsPenalty (f.ratio 0 1)
  zero-IsPenalty = (le_trans _ _ _ (neg_anti _ _ (zero-le-one laws)) neg-zero_le, le_refl _)

  pub minus_one-IsPenalty : IsPenalty (f.neg (f.ratio 1 1))
  minus_one-IsPenalty = (le_refl _, zero-IsPenalty.0)

  -- A penalty with a weight that is not negative.
  pub mul-IsPenaltyWithin :
      (w r : W) → f.ratio 0 1 ≼ w → IsPenalty r → IsPenaltyWithin w (f.mul w r)
  mul-IsPenaltyWithin w r h p = (
    le_trans _ _ _ (neg-le-mul_neg_one w) (mul_mono w _ r h p.0),
    le_trans _ _ _ (mul_mono w r _ h p.1) (mul-zero_le w),
  )

  pub add-IsPenaltyWithin :
      (v w r s : W)
      → IsPenaltyWithin v r
      → IsPenaltyWithin w s
      → IsPenaltyWithin (f.add v w) (f.add r s)
  add-IsPenaltyWithin v w r s p q = (
    le_trans _ _ _ (neg-add_le v w) (add_mono _ _ _ _ p.0 q.0),
    le_trans _ _ _ (add_mono _ _ _ _ p.1 q.1) (add-zero_le _),
  )
