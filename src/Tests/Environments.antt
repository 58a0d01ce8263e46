-- ===== src/Tests/Environments.antt =====
-- Examples of the environments: two signals of two phases, and lanes in groups.
use semaforo.Prelude.{ℕ, zero, suc, ◌≡◌, refl, some, List, [], ◌∷◌, ◌++◌, map, All, ℤ, arith}
use semaforo.Prelude.Dict.{Dict, get}
use semaforo.Float.{clip01}
use semaforo.Float.Fixed.{fixed, fixed-IsOrdered}
use semaforo.Environments.Signal.{TrafficSignal}
use semaforo.Environments.Actions.{step_async}
use semaforo.Environments.Actions.Permitted.{IsPermitted, step_async-IsPermitted, AllShow}
use semaforo.Environments.Lanes.{lane_groups, aggregate_corridor_directions}
use semaforo.Environments.Lanes.Agree.{concat_groups, concat_groups-lane_groups}
use semaforo.Environments.OwnState.{
  build_own_state, transform_observation, imbalance, elapsed_share,
}
use semaforo.Environments.OwnState.Layout.{
  IsObservation, transform_observation-IsObservation, build_own_state-layout, one_hot,
}

abbrev ones : ℕ → List ℤ
ones zero = []
ones (suc n) = fixed.ratio 1 1 ∷ ones n

abbrev signal_of : ℕ → TrafficSignal ℤ
signal_of phase = record {
  green_phase = phase;
  num_green_phases = 2;
  time_since_last_phase_change = fixed.ratio 30 1;
  lanes_queue = some (ones 8);
  lanes_density = some (ones 4);
  out_lanes_density = some (ones 4);
  served = some (ones 1);
}

abbrev signals : Dict (TrafficSignal ℤ)
signals = ("c0", signal_of 0) ∷ ("c1", signal_of 1) ∷ []

signals-AllShow : AllShow signals
unfolding get
signals-AllShow id ts h = ground arith

step_async-IsPermitted_example :
    (d : Dict ℕ) × (step_async signals ("c0" ∷ "c1" ∷ []) (1 ∷ 5 ∷ []) ≡ some d)
    × All (λ e. IsPermitted signals e.0 e.1) d
unfolding get
step_async-IsPermitted_example =
    step_async-IsPermitted signals ("c0" ∷ "c1" ∷ []) (1 ∷ 5 ∷ []) signals-AllShow
      ((signal_of 0, refl), ((signal_of 1, refl), tt)) (omega arith)

concat_groups-lane_groups_example : concat_groups (lane_groups (ones 7)) ≡ ones 7
concat_groups-lane_groups_example = concat_groups-lane_groups (ones 7)

transform_observation-IsObservation_example :
    IsObservation (build_own_state (signal_of 1))
    × IsObservation (transform_observation (ones 3) (signal_of 1))
transform_observation-IsObservation_example =
    transform_observation-IsObservation fixed-IsOrdered (ones 3) (signal_of 1)

build_own_state-layout_example :
    let q = aggregate_corridor_directions (ones 8) (fixed.ratio 20 1) in
    build_own_state (signal_of 1)
    ≡ map clip01 (
        q
        ++ aggregate_corridor_directions (ones 4) (fixed.ratio 1 1)
        ++ one_hot 1
        ++ (elapsed_share (fixed.ratio 30 1)
              ∷ aggregate_corridor_directions (ones 4) (fixed.ratio 1 1)
            ++ imbalance q ∷ []))
build_own_state-layout_example =
    build_own_state-layout (signal_of 1) (ones 8) (ones 4) (ones 4) refl refl refl
