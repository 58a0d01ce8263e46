-- ===== src/Environments/Lanes/Agree.antt =====
-- Which lanes count, and where the two ways of taking lanes together agree.
use semaforo.Prelude.{
  ℕ, zero, suc, ◌+◌, ◌-◌, ◌*◌, ◌/◌, ◌%◌, ◌≤◌, ◌<◌, ◌≡◌, refl, List, [], ◌∷◌, ◌++◌, ◌==◌, length,
  take, drop, map, take-append-drop, length-drop, arith, ap, ◌∙◌, sym, false, Bool-cases, inl, inr,
}
use mathlib.Core.List.{append-nil}
use semaforo.Float.{Float, ◌≺◌, sum_f}
use semaforo.Environments.Lanes.{
  slice, chunk_of, lane_groups, corridor_groups, zeros, normalised, aggregate_directions,
  aggregate_corridor_directions,
}

module _ {ℓ} {A : Type ℓ} where
  drop-drop : (a b c : ℕ) (xs : List A) → c ≡ a + b → drop b (drop a xs) ≡ drop c xs
  drop-drop zero b c xs h = ap (λ n. drop n xs) (omega arith)
  drop-drop (suc a) zero (suc c) [] h = refl
  drop-drop (suc a) (suc b) (suc c) [] h = refl
  drop-drop (suc a) b zero [] h = ground arith
  drop-drop (suc a) b zero (x ∷ xs) h = ground arith
  drop-drop (suc a) b (suc c) (x ∷ xs) h = drop-drop a b c xs (omega arith)

  -- A slice and what follows it.
  slice-append-drop : (xs : List A) (a b : ℕ) → a ≤ b → slice xs a b ++ drop b xs ≡ drop a xs
  slice-append-drop xs a b h =
      ap (λ r. slice xs a b ++ r) (sym (drop-drop a (b - a) b xs (omega arith)))
      ∙ take-append-drop (b - a) (drop a xs)

  drop_all : (n : ℕ) (xs : List A) → length xs ≤ n → drop n xs ≡ []
  drop_all zero [] h = refl
  drop_all zero (x ∷ xs) h = elim h [ ]
  drop_all (suc n) [] h = refl
  drop_all (suc n) (x ∷ xs) h = drop_all n xs (omega arith)

  take_all : (n : ℕ) (xs : List A) → length xs ≤ n → take n xs ≡ xs
  take_all zero [] h = refl
  take_all zero (x ∷ xs) h = elim h [ ]
  take_all (suc n) [] h = refl
  take_all (suc n) (x ∷ xs) h = ap (λ r. x ∷ r) (take_all n xs (omega arith))

  unfoldable pub concat_groups : List (List A) → List A
  concat_groups [] = []
  concat_groups (g ∷ gs) = g ++ concat_groups gs

  -- A slice up to the end is all that is left, also where it starts beyond the end.
  slice-rest : (xs : List A) (a : ℕ) → slice xs a (length xs) ≡ drop a xs
  slice-rest xs a = take_all (length xs - a) (drop a xs) (omega (arith, length-drop a xs))

  -- The groups of the single intersection are all the lanes in order: none is dropped and none
  -- counted twice, whatever their number.
  pub concat_groups-lane_groups : (xs : List A) → concat_groups (lane_groups xs) ≡ xs
  unfolding concat_groups lane_groups
  concat_groups-lane_groups xs =
      let c = chunk_of (length xs) in
      rw
        (
          append-nil (slice xs (3 * c) (length xs)),
          slice-rest xs (3 * c),
          slice-append-drop xs (2 * c) (3 * c) (omega arith),
          slice-append-drop xs c (2 * c) (omega arith),
          slice-append-drop xs 0 c (omega arith),
        )
        refl

  cons_same : {x y : List A} {xs ys : List (List A)} → x ≡ y → xs ≡ ys → x ∷ xs ≡ y ∷ ys
  cons_same h k = rw (h, k) refl

  slice_same :
      (xs : List A) (a b a' b' : ℕ) → a ≡ a' → b - a ≡ b' - a' → slice xs a b ≡ slice xs a' b'
  slice_same xs a b a' b' h k = rw (k, h) refl

  -- Of lanes whose number is a multiple of four, not zero, both ways make the same groups.
  groups_agree :
      (xs : List A) → length xs % 4 ≡ 0 → 0 < length xs → lane_groups xs ≡ corridor_groups xs
  unfolding lane_groups corridor_groups
  groups_agree xs h k =
      let q = length xs / 4 in
      let c : chunk_of (length xs) ≡ q = ground arith in
      cons_same (slice_same xs _ _ 0 (0 + q) (omega arith) (omega (arith, c))) (
        cons_same (slice_same xs _ _ q (q + q) c (omega (arith, c))) (
          cons_same (slice_same xs _ _ (2 * q) (2 * q + q) (omega (arith, c)) (omega (arith, c))) (
            cons_same
              (slice_same xs _ _ (3 * q) (3 * q + q) (omega (arith, c)) (omega (arith, c, h)))
              refl)))

four_or_more : (n : ℕ) → n % 4 ≡ 0 → (n == 0) ≡ false → (n / 4 == 0) ≡ false
four_or_more n h e = ground arith

module _ {W : Type 0} ⦃f : Float W⦄ where
  -- If the number of lanes is a multiple of four and the maximum is positive, the two environments
  -- take the lanes together in the same way.
  pub aggregate_directions-corridor :
      (xs : List W) (max_val : W)
      → length xs % 4 ≡ 0
      → f.ratio 0 1 ≺ max_val
      → aggregate_directions xs max_val ≡ aggregate_corridor_directions xs max_val
  unfolding aggregate_directions aggregate_corridor_directions
  aggregate_directions-corridor xs max_val h k = elim (Bool-cases (length xs == 0)) [
    | inl e ↦ rw e refl
    | inr e ↦
        rw (e, k, four_or_more (length xs) h e)
          (ap (λ gs. map (normalised max_val) (map sum_f gs)) (groups_agree xs h (ground arith)))
  ]

  -- Lanes that the corridor environment leaves out: with fewer than four, all of them.
  pub aggregate_corridor_few :
      (xs : List W) (max_val : W)
      → length xs < 4
      → aggregate_corridor_directions xs max_val ≡ zeros 4
  unfolding aggregate_corridor_directions
  aggregate_corridor_few xs max_val h = ground arith
