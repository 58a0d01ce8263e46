-- ===== src/Environments/Corridor/Rows.antt =====
-- The rows of a corridor's observation.
use semaforo.Prelude.{
  ℕ, zero, suc, ◌+◌, ◌≡◌, refl, Option, none, some, List, [], ◌∷◌, ◌++◌, length, length-map,
  length-append, All, All-append, arith, get_elem?, Option-cases, inl, inr,
}
use semaforo.Float.{Float, IsOrdered, ◌≼◌}
use semaforo.Float.Order.{zero-le-one}
use semaforo.Environments.Signal.{TrafficSignal}
use semaforo.Environments.OwnState.{build_own_state}
use semaforo.Environments.OwnState.Layout.{
  map-clip01_range, transform_observation-IsObservation, length-set,
}
use semaforo.Environments.Corridor.{
  Direction, east, west, neighbor_queue, build_neighbor_state, neighbor_block, first_of,
  observation_rows, build_observations,
}

-- What stands before place `i`, `before` the first.
abbrev pub elem_before {ℓ} : {A : Type ℓ} → Option A → List A → ℕ → Option A
elem_before before xs zero = before
elem_before before xs (suc i) = get_elem? xs i

module _ {W : Type 0} ⦃f : Float W⦄ where
  get_elem?-observation_rows :
      (prev : Option (TrafficSignal W)) (signals : List (TrafficSignal W)) (i : ℕ)
      (ts : TrafficSignal W)
      → get_elem? signals i ≡ some ts
      → get_elem? (observation_rows prev signals) i
        ≡ some (
            build_own_state ts
            ++ neighbor_block east (elem_before prev signals i)
            ++ neighbor_block west (get_elem? signals (suc i)))
  unfolding observation_rows
  get_elem?-observation_rows prev [] i ts h = cc
  get_elem?-observation_rows prev (x ∷ []) zero ts h = cc
  get_elem?-observation_rows prev (x ∷ y ∷ rest) zero ts h = cc
  get_elem?-observation_rows prev (x ∷ rest) (suc zero) ts h =
      get_elem?-observation_rows (some x) rest zero ts h
  get_elem?-observation_rows prev (x ∷ rest) (suc (suc i)) ts h =
      get_elem?-observation_rows (some x) rest (suc i) ts h

  -- The row of a signal of the corridor is its own state, the state of the signal before it as seen
  -- from the east, and that of the signal after it as seen from the west; where there is none before
  -- or after, four zeros.
  pub get_elem?-build_observations :
      (signals : List (TrafficSignal W)) (i : ℕ) (ts : TrafficSignal W)
      → get_elem? signals i ≡ some ts
      → get_elem? (build_observations signals) i
        ≡ some (
            build_own_state ts
            ++ neighbor_block east (elem_before none signals i)
            ++ neighbor_block west (get_elem? signals (suc i)))
  unfolding build_observations
  get_elem?-build_observations signals i ts h = get_elem?-observation_rows none signals i ts h

module _ {W : Type 0} ⦃f : Float W⦄ (laws : IsOrdered W) where
  open laws use {le_refl}

  abbrev pub IsUnitRange : W → Type 0
  IsUnitRange x = (f.ratio 0 1 ≼ x) × (x ≼ f.ratio 1 1)

  abbrev pub IsBlock : ℕ → List W → Type 0
  IsBlock n xs = (length xs ≡ n) × All IsUnitRange xs

  append-IsBlock :
      (m n : ℕ) (xs ys : List W) → IsBlock m xs → IsBlock n ys → IsBlock (m + n) (xs ++ ys)
  append-IsBlock m n xs ys h k =
      (omega (arith, length-append xs ys, h.0, k.0), All-append IsUnitRange xs ys h.1 k.1)

  build_neighbor_state-IsBlock :
      (ts : TrafficSignal W) (d : Direction) → IsBlock 4 (build_neighbor_state ts d)
  unfolding build_neighbor_state neighbor_queue
  build_neighbor_state-IsBlock ts d = elim (Option-cases ts.lanes_queue) [
    | inl e ↦ rw e (simp (length-map, length-set), map-clip01_range laws _)
    | inr (q, e) ↦ rw e (simp (length-map, length-set), map-clip01_range laws _)
  ]

  neighbor_block-IsBlock :
      (d : Direction) (o : Option (TrafficSignal W)) → IsBlock 4 (neighbor_block d o)
  unfolding neighbor_block
  neighbor_block-IsBlock d none =
      let z : IsUnitRange (f.ratio 0 1) = (le_refl _, zero-le-one laws) in
      (refl, (z, (z, (z, (z, tt)))))
  neighbor_block-IsBlock d (some ts) = build_neighbor_state-IsBlock ts d

  observation_rows-IsBlock :
      (prev : Option (TrafficSignal W)) (signals : List (TrafficSignal W))
      → (length (observation_rows prev signals) ≡ length signals)
        × All (IsBlock 24) (observation_rows prev signals)
  unfolding observation_rows
  observation_rows-IsBlock prev [] = (refl, tt)
  observation_rows-IsBlock prev (ts ∷ rest) =
      let own = (transform_observation-IsObservation laws [] ts).0 in
      let next = observation_rows-IsBlock (some ts) rest in
      (
        omega (arith, next.0),
        (
          append-IsBlock 20 4 _ _ (append-IsBlock 16 4 _ _ own (neighbor_block-IsBlock east prev))
              (neighbor_block-IsBlock west (first_of rest)),
          next.1,
        ),
      )

  -- A corridor observes one row for each signal, each of 24 numbers from 0 to 1, whatever the signals
  -- answer and wherever they raise.
  pub build_observations-IsBlock :
      (signals : List (TrafficSignal W))
      → (length (build_observations signals) ≡ length signals)
        × All (IsBlock 24) (build_observations signals)
  unfolding build_observations
  build_observations-IsBlock signals = observation_rows-IsBlock none signals
