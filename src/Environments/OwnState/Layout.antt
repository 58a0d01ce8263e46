-- ===== src/Environments/OwnState/Layout.antt =====
-- The form of an observation: its length, its range, and its parts.
use semaforo.Prelude.{
  ℕ, zero, suc, ◌+◌, ◌%◌, ◌/◌, ◌≡◌, refl, some, List, [], ◌∷◌, ◌++◌, length, set, take, map,
  length-map, All, arith, ap, ◌∙◌, if_ind, ◌<◌, Option-cases, Bool-cases, inl, inr, ◌==◌,
}
use semaforo.Float.{Float, IsOrdered, ◌≼◌, clip01, lt}
use semaforo.Float.Order.{clip_bounds, zero-le-one}
use semaforo.Environments.Signal.{TrafficSignal}
use semaforo.Environments.Lanes.{zeros, aggregate_corridor_directions, corridor_groups}
use semaforo.Environments.OwnState.{
  assign, imbalance, elapsed_share, own_downstream, own_phase, own_densities, own_queues,
  build_own_state, fallback, largest, single_downstream, single_phase, single_densities,
  single_queues, transform_observation,
}

module _ {ℓ} {A : Type ℓ} where
  pub length-set : (xs : List A) (i : ℕ) (v : A) → length (set xs i v) ≡ length xs
  length-set [] i v = refl
  length-set (x ∷ xs) zero v = refl
  length-set (x ∷ xs) (suc i) v = ap suc (length-set xs i v)

  pub length-assign : (ys xs : List A) (i : ℕ) → length (assign xs i ys) ≡ length xs
  length-assign [] xs i = refl
  length-assign (y ∷ ys) xs i = length-assign ys (set xs i y) (suc i) ∙ length-set xs i y

module _ {W : Type 0} ⦃f : Float W⦄ where
  length-own_downstream :
      (ts : TrafficSignal W) (obs : List W) → length (own_downstream ts obs) ≡ length obs
  unfolding own_downstream
  length-own_downstream ts obs = elim (Option-cases ts.out_lanes_density) [
    | inl e ↦ rw e refl
    | inr (down, e) ↦ rw e (simp (length-set, length-assign))
  ]

  length-own_phase : (ts : TrafficSignal W) (obs : List W) → length (own_phase ts obs) ≡ length obs
  unfolding own_phase
  length-own_phase ts obs = simp (length-own_downstream, length-set)

  length-own_densities :
      (ts : TrafficSignal W) (obs : List W) → length (own_densities ts obs) ≡ length obs
  unfolding own_densities
  length-own_densities ts obs = elim (Option-cases ts.lanes_density) [
    | inl e ↦ rw e refl
    | inr (d, e) ↦ rw (e, own_densities) (simp (length-own_phase, length-assign))
  ]

  length-own_queues :
      (ts : TrafficSignal W) (obs : List W) → length (own_queues ts obs) ≡ length obs
  unfolding own_queues
  length-own_queues ts obs = elim (Option-cases ts.lanes_queue) [
    | inl e ↦ rw e refl
    | inr (q, e) ↦ rw (e, own_queues) (simp (length-own_densities, length-assign))
  ]

  length-fallback : (raw obs : List W) → length (fallback raw obs) ≡ length obs
  unfolding fallback
  length-fallback raw obs = elim (Bool-cases (lt (f.ratio 0 1) (largest (f.ratio 0 1) raw))) [
    | inl e ↦ rw e (simp length-assign)
    | inr e ↦ rw e refl
  ]

  length-single_downstream :
      (raw : List W) (ts : TrafficSignal W) (obs : List W)
      → length (single_downstream raw ts obs) ≡ length obs
  unfolding single_downstream
  length-single_downstream raw ts obs = elim (Option-cases ts.out_lanes_density) [
    | inl e ↦ rw e (length-fallback raw obs)
    | inr (down, e) ↦ elim (Option-cases ts.served) [
      | inl k ↦ rw (e, k) (simp (length-fallback, length-assign))
      | inr (s, k) ↦ rw (e, k) (simp (length-set, length-assign))
    ]
  ]

  length-single_phase :
      (raw : List W) (ts : TrafficSignal W) (obs : List W)
      → length (single_phase raw ts obs) ≡ length obs
  unfolding single_phase
  length-single_phase raw ts obs = simp (length-single_downstream, length-set, length-assign)

  length-single_densities :
      (raw : List W) (ts : TrafficSignal W) (obs : List W)
      → length (single_densities raw ts obs) ≡ length obs
  unfolding single_densities
  length-single_densities raw ts obs = elim (Option-cases ts.lanes_density) [
    | inl e ↦ rw e (length-fallback raw obs)
    | inr (d, e) ↦ rw e (simp (length-single_phase, length-assign))
  ]

  length-single_queues :
      (raw : List W) (ts : TrafficSignal W) (obs : List W)
      → length (single_queues raw ts obs) ≡ length obs
  unfolding single_queues
  length-single_queues raw ts obs = elim (Option-cases ts.lanes_queue) [
    | inl e ↦ rw e (length-fallback raw obs)
    | inr (q, e) ↦ rw e (simp (length-single_densities, length-assign))
  ]

  -- Sixteen numbers from 0 to 1.
  abbrev pub IsObservation : List W → Type 0
  IsObservation obs = (length obs ≡ 16) × All (λ x. (f.ratio 0 1 ≼ x) × (x ≼ f.ratio 1 1)) obs

module _ {W : Type 0} ⦃f : Float W⦄ (laws : IsOrdered W) where
  pub map-clip01_range :
      (xs : List W) → All (λ x. (f.ratio 0 1 ≼ x) × (x ≼ f.ratio 1 1)) (map clip01 xs)
  map-clip01_range [] = tt
  map-clip01_range (x ∷ xs) = (clip_bounds laws x _ _ (zero-le-one laws), map-clip01_range xs)

  -- Whatever a signal answers, and wherever a call of it raises, both environments observe sixteen
  -- numbers from 0 to 1; the single intersection does so whatever raw array SUMO gave.
  pub transform_observation-IsObservation :
      (raw : List W) (ts : TrafficSignal W)
      → IsObservation (build_own_state ts) × IsObservation (transform_observation raw ts)
  unfolding build_own_state transform_observation
  transform_observation-IsObservation raw ts = (
    (length-map _ clip01 ∙ length-own_queues ts (zeros 16), map-clip01_range _),
    (
      length-map _ clip01
          ∙ length-single_queues raw ts _
          ∙ length-assign {A = W} (take 16 raw) (zeros 16) 0,
      map-clip01_range _,
    ),
  )

module _ {W : Type 0} ⦃f : Float W⦄ where
  -- Four numbers.
  abbrev pub IsFour : List W → Type 0
  IsFour xs = (a : W) × (b : W) × (c : W) × (d : W) × (xs ≡ a ∷ b ∷ c ∷ d ∷ [])

  aggregate_corridor_directions-IsFour :
      (xs : List W) (max_val : W) → IsFour (aggregate_corridor_directions xs max_val)
  unfolding aggregate_corridor_directions corridor_groups
  aggregate_corridor_directions-IsFour xs max_val =
      if_ind {A = List W} IsFour (length xs == 0) (_, _, _, _, refl)
        (if_ind {A = List W} IsFour (length xs / 4 == 0) (_, _, _, _, refl) (_, _, _, _, refl))

  -- 1 at the phase's place of two, 0 at the other
  abbrev pub one_hot : ℕ → List W
  one_hot slot = set (zeros 2) slot (f.ratio 1 1)

  write_all :
      (a b c d a' b' c' d' a'' b'' c'' d'' t : W) (slot : ℕ)
      → slot < 2
      → let obs =
          assign
            (set
              (set
                (assign (assign (zeros 16) 0 (a ∷ b ∷ c ∷ d ∷ [])) 4 (a' ∷ b' ∷ c' ∷ d' ∷ []))
                (8 + slot)
                (f.ratio 1 1))
              10
              t)
            11
            (a'' ∷ b'' ∷ c'' ∷ d'' ∷ []) in
        set obs 15 (imbalance obs)
        ≡ (a ∷ b ∷ c ∷ d ∷ [])
          ++ (a' ∷ b' ∷ c' ∷ d' ∷ [])
          ++ one_hot slot
          ++ (t ∷ (a'' ∷ b'' ∷ c'' ∷ d'' ∷ []) ++ imbalance (a ∷ b ∷ c ∷ d ∷ []) ∷ [])
  unfolding imbalance
  write_all a b c d a' b' c' d' a'' b'' c'' d'' t zero h = refl
  write_all a b c d a' b' c' d' a'' b'' c'' d'' t (suc zero) h = refl
  write_all a b c d a' b' c' d' a'' b'' c'' d'' t (suc (suc n)) h = ground arith

  -- If a signal answers every call, the own state of the corridor environment is, each number clipped
  -- to 0 to 1: the queues and the densities per direction, the phase modulo two as a one-hot pair,
  -- the share of 120 seconds elapsed, the densities downstream and the imbalance of the queues.
  pub build_own_state-layout :
      (ts : TrafficSignal W) (queues densities down : List W)
      → ts.lanes_queue ≡ some queues
      → ts.lanes_density ≡ some densities
      → ts.out_lanes_density ≡ some down
      → let q = aggregate_corridor_directions queues (f.ratio 20 1) in
        build_own_state ts
        ≡ map clip01 (
            q
            ++ aggregate_corridor_directions densities (f.ratio 1 1)
            ++ one_hot (ts.green_phase % 2)
            ++ (elapsed_share ts.time_since_last_phase_change
                  ∷ aggregate_corridor_directions down (f.ratio 1 1)
                ++ imbalance q ∷ []))
  unfolding build_own_state own_queues own_densities own_phase own_downstream
  build_own_state-layout ts queues densities down hq hd ho =
      let (a, b, c, d, eq) = aggregate_corridor_directions-IsFour queues (f.ratio 20 1) in
      let (a', b', c', d', ed) = aggregate_corridor_directions-IsFour densities (f.ratio 1 1) in
      let (a'', b'', c'', d'', eo) = aggregate_corridor_directions-IsFour down (f.ratio 1 1) in
      let slot : ts.green_phase % 2 < 2 = omega arith in
      rw (hq, hd, ho, eq, ed, eo)
        (ap (map clip01)
          (write_all a b c d a' b' c' d' a'' b'' c'' d'' _ (ts.green_phase % 2) slot))
