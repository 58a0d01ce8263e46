-- ===== src/Environments/OwnState.antt =====
-- The 16 numbers that an intersection reports of itself: `CorridorVecEnv._build_own_state` and
-- `_build_neighbor_state` (brain/src/environments/corridor_env.py) and
-- `SingleIntersectionEnv._transform_observation` (single_intersection.py).
pub mod Layout
use semaforo.Prelude.{
  ℕ, zero, suc, ◌+◌, ◌-◌, ◌%◌, Option, none, some, List, [], ◌∷◌, ◌++◌, if◌then◌else◌, length,
  get_or, take, drop, set, map, replicate, leb,
}
use semaforo.Float.{Float, lt, max_f, clip01}
use semaforo.Environments.Signal.{TrafficSignal}
use semaforo.Environments.Lanes.{zeros, aggregate_directions, aggregate_corridor_directions}

-- _NUM_PHASES
abbrev pub num_phases_oh : ℕ
num_phases_oh = 2

-- vec[start:start+len(xs)] = xs, of a slice that lies within
abbrev pub assign {ℓ} : {A : Type ℓ} → List A → ℕ → List A → List A
assign vec start [] = vec
assign vec start (x ∷ xs) = assign (set vec start x) (suc start) xs

module _ {W : Type 0} ⦃f : Float W⦄ where
  -- abs(x)
  abbrev pub abs_f : W → W
  abs_f x = if lt x (f.ratio 0 1) then f.neg x else x

  -- obs[i]
  abbrev pub at : List W → ℕ → W
  at obs i = get_or obs i (f.ratio 0 1)

  -- How much more queue one axis has than the other, of the whole.
  unfoldable pub imbalance : List W → W
  imbalance obs =
      let q_ns = f.add (at obs 0) (at obs 2) in
      let q_ew = f.add (at obs 1) (at obs 3) in
      clip01 (f.div (abs_f (f.sub q_ns q_ew)) (max_f (f.add q_ns q_ew) (f.ratio 1 100)))

  -- np.clip(elapsed / 120.0, 0.0, 1.0)
  unfoldable pub elapsed_share : W → W
  elapsed_share elapsed = clip01 (f.div elapsed (f.ratio 120 1))

  -- The phase's place in the one-hot part, which is zero before.
  abbrev pub phase_slot : TrafficSignal W → ℕ
  phase_slot ts = ts.green_phase % num_phases_oh

  -- `_build_own_state`, from its last statement to its first: each part is written unless a call
  -- before it raised.
  unfoldable pub own_downstream : TrafficSignal W → List W → List W
  unfolding imbalance
  own_downstream ts obs = elim ts.out_lanes_density [
    | none ↦ obs
    | some down ↦
        let obs' = assign obs 11 (aggregate_corridor_directions down (f.ratio 1 1)) in
        set obs' 15 (imbalance obs')
  ]

  unfoldable pub own_phase : TrafficSignal W → List W → List W
  unfolding own_downstream elapsed_share
  own_phase ts obs = own_downstream ts (
      set (set obs (8 + phase_slot ts) (f.ratio 1 1)) 10
        (elapsed_share ts.time_since_last_phase_change))

  unfoldable pub own_densities : TrafficSignal W → List W → List W
  unfolding own_phase
  own_densities ts obs = elim ts.lanes_density [
    | none ↦ obs
    | some densities ↦
        own_phase ts (assign obs 4 (aggregate_corridor_directions densities (f.ratio 1 1)))
  ]

  unfoldable pub own_queues : TrafficSignal W → List W → List W
  unfolding own_densities
  own_queues ts obs = elim ts.lanes_queue [
    | none ↦ obs
    | some queues ↦
        own_densities ts (assign obs 0 (aggregate_corridor_directions queues (f.ratio 20 1)))
  ]

  unfoldable pub build_own_state : TrafficSignal W → List W
  unfolding own_queues
  build_own_state ts = map clip01 (own_queues ts (zeros 16))

  -- `_transform_observation`: what the fallback leaves after an exception. `largest` is the largest
  -- absolute value of the raw array, from 0.
  unfoldable pub largest : W → List W → W
  largest best [] = best
  largest best (x ∷ xs) = largest (max_f best (abs_f x)) xs

  unfoldable pub fallback : List W → List W → List W
  unfolding largest
  fallback raw obs =
      let max_val = largest (f.ratio 0 1) raw in
      if lt (f.ratio 0 1) max_val
      then assign obs 0 (take 16 (map (λ x. clip01 (f.div x max_val)) raw))
      else obs

  unfoldable pub single_downstream : List W → TrafficSignal W → List W → List W
  unfolding imbalance fallback
  single_downstream raw ts obs = elim ts.out_lanes_density [
    | none ↦ fallback raw obs
    | some down ↦
        let obs' = assign obs 11 (aggregate_directions down (f.ratio 1 1)) in
        elim ts.served [ none ↦ fallback raw obs' | some served ↦ set obs' 15 (imbalance obs') ]
  ]

  unfoldable pub single_phase : List W → TrafficSignal W → List W → List W
  unfolding single_downstream elapsed_share
  single_phase raw ts obs = single_downstream raw ts (
      set (assign obs 8 (set (zeros 2) (phase_slot ts) (f.ratio 1 1))) 10
        (elapsed_share ts.time_since_last_phase_change))

  unfoldable pub single_densities : List W → TrafficSignal W → List W → List W
  unfolding single_phase fallback
  single_densities raw ts obs = elim ts.lanes_density [
    | none ↦ fallback raw obs
    | some densities ↦
        single_phase raw ts (assign obs 4 (aggregate_directions densities (f.ratio 1 1)))
  ]

  unfoldable pub single_queues : List W → TrafficSignal W → List W → List W
  unfolding single_densities fallback
  single_queues raw ts obs = elim ts.lanes_queue [
    | none ↦ fallback raw obs
    | some queues ↦
        single_densities raw ts (assign obs 0 (aggregate_directions queues (f.ratio 20 1)))
  ]

  -- `raw` is the array that sumo_rl observed, already flat.
  unfoldable pub transform_observation : List W → TrafficSignal W → List W
  unfolding single_queues
  transform_observation raw ts =
      map clip01 (single_queues raw ts (assign (zeros 16) 0 (take 16 raw)))
