-- ===== src/Coordination/GreenWave/Directions.antt =====
-- The signs of the offsets in the two directions of a corridor.
use mathlib.Core.Path.{subst}
use semaforo.Prelude.{◌≡◌, refl, sym, false, some, List, [], ◌∷◌, map, All}
use semaforo.Float.{Float, IsOrdered, ◌≼◌, ◌≺◌}
use semaforo.Float.Order.{div_nonneg}
use semaforo.Network.Corridors.{last_of}
use semaforo.Coordination.GreenWave.{
  Intersection, reverse_onto, offset, compute_offsets, compute_bidirectional_offsets,
}

-- A reversed list of two or more begins with the last of them, and holds the same elements.
reverse_onto_lem :
    {A : Type 0} (P : A → Type 0) (x y : A) (done rest : List A)
    → All P (x ∷ y ∷ done)
    → All P rest
    → (z : A) × (y' : A) × (t : List A) × (reverse_onto (x ∷ y ∷ done) rest ≡ z ∷ y' ∷ t)
      × (z ≡ last_of x rest)
      × All P (z ∷ y' ∷ t)
unfolding reverse_onto
reverse_onto_lem P x y done [] h k = (x, y, done, refl, refl, h)
reverse_onto_lem P x y done (r ∷ rest) h k = reverse_onto_lem P r x (y ∷ done) rest (k.0, h) k.1

module _ {W : Type 0} ⦃f : Float W⦄ (laws : IsOrdered W) (round2 : W → W)
    (round2_mono : (a b : W) → a ≼ b → round2 a ≼ round2 b)
    (round2-zero : round2 (f.ratio 0 1) ≡ f.ratio 0 1) where
  open laws use {le_refl, le_trans, sub_mono, sub_self_le, le-sub_self, div_mono, div-zero_le}

  offset_nonneg :
      (origin speed : W) (i : Intersection W)
      → f.ratio 0 1 ≺ speed
      → origin ≼ i.position_m
      → f.ratio 0 1 ≼ offset round2 origin speed i
  unfolding offset
  offset_nonneg origin speed i h k = rw⁻¹ round2-zero (
      round2_mono _ _ (
        div_nonneg laws speed _ h
          (le_trans _ _ _ (le-sub_self origin) (sub_mono _ _ _ _ k (le_refl origin)))))

  offset_nonpos :
      (origin speed : W) (i : Intersection W)
      → f.ratio 0 1 ≺ speed
      → i.position_m ≼ origin
      → offset round2 origin speed i ≼ f.ratio 0 1
  unfolding offset
  offset_nonpos origin speed i h k =
      subst (λ y. round2 (f.div (f.sub i.position_m origin) speed) ≼ y) round2-zero
        (round2_mono _ _ (
          le_trans _ _ _
            (div_mono speed _ _ h
              (le_trans _ _ _ (sub_mono _ _ _ _ k (le_refl origin)) (sub_self_le origin)))
            (div-zero_le speed h)))

  map-All :
      (P : Intersection W → Type 0) (Q : W → Type 0) (g : Intersection W → W)
      → ((i : Intersection W) → P i → Q (g i))
      → (xs : List (Intersection W)) → All P xs
      → All Q (map g xs)
  map-All P Q g s [] h = tt
  map-All P Q g s (x ∷ xs) h = (s x h.0, map-All P Q g s xs h.1)

  -- Between the first and the last intersection.
  abbrev pub IsBetween : W → W → Intersection W → Type 0
  IsBetween first last i = (first ≼ i.position_m) × (i.position_m ≼ last)

  -- Let `round` be monotone and keep 0, the target speed be positive, in km/h and in m/s, and the
  -- corridor have two intersections or more, none before the first and none beyond the last. Then
  -- both directions get offsets: those of the forward direction are not negative, and those of the
  -- reverse direction are not positive.
  pub compute_bidirectional_offsets_signs :
      (a b : Intersection W) (rest : List (Intersection W)) (speed : W)
      → f.le speed (f.ratio 0 1) ≡ false
      → f.ratio 0 1 ≺ f.div speed (f.ratio 36 10)
      → All (IsBetween a.position_m (Intersection.position_m (last_of b rest))) (a ∷ b ∷ rest)
      → (forward : List W) × (reverse : List W) × (compute_bidirectional_offsets round2
            (a ∷ b ∷ rest)
            speed
          ≡ some (forward, reverse))
        × All (λ o. f.ratio 0 1 ≼ o) forward
        × All (λ o. o ≼ f.ratio 0 1) reverse
  unfolding compute_bidirectional_offsets compute_offsets reverse_onto
  compute_bidirectional_offsets_signs a b rest speed h k between =
      let last = Intersection.position_m (last_of b rest) in
      let P : Intersection W → Type 0 = IsBetween a.position_m last in
      let (z, y, t, e, ends, all) =
        reverse_onto_lem P b a [] rest (between.1.0, (between.0, tt)) between.1.1 in
      let speed_ms = f.div speed (f.ratio 36 10) in
      (
        map (offset round2 a.position_m speed_ms) (a ∷ b ∷ rest),
        map (offset round2 (Intersection.position_m z) speed_ms) (z ∷ y ∷ t),
        rw (h, e, h) refl,
        map-All P (λ o. f.ratio 0 1 ≼ o) _ (λ i p. offset_nonneg _ speed_ms i k p.0) (a ∷ b ∷ rest)
            between,
        map-All P (λ o. o ≼ f.ratio 0 1) _
            (λ i p.
              offset_nonpos _ speed_ms i k
                (subst (λ w. i.position_m ≼ Intersection.position_m w) (sym ends) p.1))
            (z ∷ y ∷ t) all,
      )
