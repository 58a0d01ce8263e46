-- ===== src/Queueing/Greens.antt =====
-- How a cycle is split into green times.
use mathlib.Core.Option.{some-injective}
use semaforo.Prelude.{
  ℕ, zero, suc, ap, sym, ◌∙◌, get_elem?, ◌≡◌, refl, some, List, [], ◌∷◌, map, length, length-map,
  All, false, arith,
}
use semaforo.Float.{Float, IsOrdered, ◌≼◌, ◌≺◌, sum_f, sum_from}
use semaforo.Float.Order.{le_of_lt, le-add, div_nonneg}
use semaforo.Queueing.{effective_green, allocate_green_times}

module _ {W : Type 0} ⦃f : Float W⦄ (laws : IsOrdered W) where
  open laws use {
    le_refl, le_trans, add_mono, le-zero_add, mul_mono, le-mul_zero, mul-one_le, div_mono,
    div_self_le,
  }

  sum_from-ge : (acc : W) (xs : List W) → All (λ x. f.ratio 0 1 ≼ x) xs → acc ≼ sum_from acc xs
  unfolding sum_from
  sum_from-ge acc [] h = le_refl acc
  sum_from-ge acc (x ∷ xs) h =
      le_trans _ _ _ (le-add laws acc x h.0) (sum_from-ge (f.add acc x) xs h.1)

  -- No term is above the sum.
  terms_le :
      (acc : W) (xs : List W)
      → f.ratio 0 1 ≼ acc
      → All (λ x. f.ratio 0 1 ≼ x) xs
      → All (λ x. x ≼ sum_from acc xs) xs
  unfolding sum_from
  terms_le acc [] a h = tt
  terms_le acc (x ∷ xs) a h = (
    le_trans x (f.add acc x) _ (le_trans _ _ _ (le-zero_add x) (add_mono _ _ x x a (le_refl x)))
        (sum_from-ge (f.add acc x) xs h.1),
    terms_le (f.add acc x) xs (le_trans _ _ _ a (le-add laws acc x h.0)) h.1,
  )

  -- A share of the green time, for a ratio from 0 to the sum of all.
  share_bounds :
      (green y total : W)
      → f.ratio 0 1 ≼ green
      → f.ratio 0 1 ≺ total
      → f.ratio 0 1 ≼ y
      → y ≼ total
      → (f.ratio 0 1 ≼ f.mul green (f.div y total)) × (f.mul green (f.div y total) ≼ green)
  share_bounds green y total g t h k = (
    le_trans _ _ _ (le-mul_zero green) (mul_mono green _ _ g (div_nonneg laws total y t h)),
    le_trans _ _ _
        (mul_mono green _ _ g (le_trans _ _ _ (div_mono total y total t k) (div_self_le total t)))
        (mul-one_le green),
  )

  -- The phase with the larger ratio has at least as much green.
  share_mono :
      (green y z total : W)
      → f.ratio 0 1 ≼ green
      → f.ratio 0 1 ≺ total
      → y ≼ z
      → f.mul green (f.div y total) ≼ f.mul green (f.div z total)
  share_mono green y z total g t h = mul_mono green _ _ g (div_mono total y z t h)

module _ {W : Type 0} ⦃f : Float W⦄ where
  -- A green time for each ratio, from 0 to the green time of the cycle; the larger of two ratios has
  -- no less green than the other.
  pub record IsSplit (green : W) (ratios greens : List W) : Type 0 where
    pub same_length : length greens ≡ length ratios
    pub bounds : All (λ g. (f.ratio 0 1 ≼ g) × (g ≼ green)) greens
    pub ordered :
        (i j : ℕ) (y z g h : W)
        → get_elem? ratios i ≡ some y
        → get_elem? ratios j ≡ some z
        → get_elem? greens i ≡ some g
        → get_elem? greens j ≡ some h
        → y ≼ z
        → g ≼ h

  get_elem?-map :
      (share : W → W) (ys : List W) (i : ℕ) (y g : W)
      → get_elem? ys i ≡ some y
      → get_elem? (map share ys) i ≡ some g
      → share y ≡ g
  get_elem?-map share [] i y g e k = let absurd : ⊥ = ground arith in elim absurd [ ]
  get_elem?-map share (x ∷ ys) zero y g e k =
      ap share (sym (some-injective x y e)) ∙ some-injective _ g k
  get_elem?-map share (x ∷ ys) (suc i) y g e k = get_elem?-map share ys i y g e k

  All-map :
      (P Q : W → Type 0) (share : W → W) (ys : List W)
      → ((y : W) → P y → Q (share y))
      → All P ys
      → All Q (map share ys)
  All-map P Q share [] h a = tt
  All-map P Q share (y ∷ ys) h a = (h y a.0, All-map P Q share ys h a.1)

  both : (P Q : W → Type 0) (ys : List W) → All P ys → All Q ys → All (λ y. P y × Q y) ys
  both P Q [] a b = tt
  both P Q (y ∷ ys) a b = ((a.0, b.0), both P Q ys a.1 b.1)

module _ {W : Type 0} ⦃f : Float W⦄ (laws : IsOrdered W) where
  -- A cycle that is longer than its lost time is split, if no critical ratio is negative and their
  -- sum is positive: each phase has a green time, from 0 to what the cycle has left, and of two
  -- phases the one with the larger ratio has no less.
  pub allocate_green_times-IsSplit :
      (cycle_length lost_time_per_phase : W) (ratios : List W)
      → f.ratio 0 1 ≺ effective_green cycle_length ratios lost_time_per_phase
      → f.ratio 0 1 ≺ sum_f ratios
      → All (λ y. f.ratio 0 1 ≼ y) ratios
      → (greens : List W) × (allocate_green_times cycle_length ratios lost_time_per_phase
          ≡ some greens)
        × IsSplit (effective_green cycle_length ratios lost_time_per_phase) ratios greens
  unfolding allocate_green_times sum_f
  allocate_green_times-IsSplit cycle_length lost_time_per_phase ratios g t h =
      let green = effective_green cycle_length ratios lost_time_per_phase in
      let total = sum_f ratios in
      let share : W → W = λ y. f.mul green (f.div y total) in
      let long : f.le green (f.ratio 0 1) ≡ false = ground arith in
      let some_demand : f.le total (f.ratio 0 1) ≡ false = ground arith in
      let g' = le_of_lt laws _ green g in
      (
        map share ratios,
        rw (long, some_demand) refl,
        record {
          same_length = length-map ratios share;
          bounds =
              All-map (λ y. (f.ratio 0 1 ≼ y) × (y ≼ total)) (λ x. (f.ratio 0 1 ≼ x) × (x ≼ green))
                share ratios (λ y b. share_bounds laws green y total g' t b.0 b.1)
                (both (λ y. f.ratio 0 1 ≼ y) (λ y. y ≼ total) ratios h
                  (terms_le laws (f.ratio 0 1) ratios (laws.le_refl _) h));
          ordered = λ i j y z a b ey ez ea eb k.
              rw
                (← get_elem?-map share ratios i y a ey ea, ← get_elem?-map share ratios j z b ez eb)
                (share_mono laws green y z total g' t k);
        },
      )
