-- ===== src/Tests/Multi.antt =====
-- Examples of the corridor environment and of the cameras' observation: SUMO is a list of the actions
-- that it was given, and ends at the second step.
use semaforo.Prelude.{
  ℕ, suc, ◌%◌, ◌≡◌, refl, String, Option, none, some, List, [], ◌∷◌, ◌++◌, map, length, Bool, true,
  false, ◌==◌, ℤ, pos, negsuc, py_mod,
}
use semaforo.Prelude.Dict.{Dict}
use semaforo.Float.{clip01, max_f}
use semaforo.Float.Fixed.{fixed, fixed-IsOrdered}
use semaforo.Environments.Signal.{TrafficSignal}
use semaforo.Environments.Lanes.{zeros, aggregate_directions}
use semaforo.Environments.Multi.{
  MultiEnv, Reply, StepResult, empty_cache, absorb, init, reset, step, canonical17,
}
use semaforo.Environments.Multi.Steps.{Reachable, new, after_reset, StepReports, step-StepReports}
use semaforo.Vision.{ObservationBuilder, camera_queue, elapsed_in_window, build}
use semaforo.Vision.Layout.{canonical, build-canonical}

abbrev Recorded : Type 0
Recorded = List (Dict ℕ)

-- c0 answers with three numbers, and a stranger too.
abbrev answers : Dict (List ℤ)
answers =
    ("c0", fixed.ratio 1 2 ∷ fixed.ratio 3 1 ∷ negsuc 8 ∷ []) ∷ ("c9", fixed.ratio 1 2 ∷ []) ∷ []

abbrev recorded_step : Recorded → Dict ℕ → Recorded × Reply ℤ ℕ
recorded_step s actions = (
  actions ∷ s,
  record {
    raw_obs = some answers;
    raw_rewards = ("c1", fixed.ratio 2 1) ∷ [];
    dones = ("__all__", length s == 1) ∷ [];
    info = length s;
  },
)

abbrev no_signals : Recorded → Dict (TrafficSignal ℤ)
no_signals s = []

abbrev fresh : MultiEnv Recorded ℤ
fresh = record {
  sumo = some [];
  agents = "c0" ∷ "c1" ∷ "c2" ∷ [];
  obs_cache = absorb empty_cache (some answers);
  curriculum_stage = pos 0;
  include_global_state = true;
}

fresh-Reachable : Reachable recorded_step no_signals fresh
unfolding init reset absorb semaforo.Environments.Multi.build_observations semaforo.Prelude.Dict.get
    semaforo.Environments.Multi.dict_of semaforo.Prelude.Dict.put
fresh-Reachable = after_reset [] (some answers) _ (new (pos 0) true) refl

step-StepReports_example :
    (env' : MultiEnv Recorded ℤ) × (r : StepResult ℤ ℕ) × (step recorded_step no_signals fresh
        (("c2", pos 5) ∷ [])
      ≡ some (env', r))
    × StepReports recorded_step no_signals fresh [] (("c2", pos 5) ∷ []) env' r
step-StepReports_example =
    step-StepReports fixed-IsOrdered recorded_step no_signals fresh [] (("c2", pos 5) ∷ [])
      fresh-Reachable refl

abbrev busy : List ℤ
busy = fixed.ratio 4 1 ∷ fixed.ratio 1 1 ∷ fixed.ratio 0 1 ∷ fixed.ratio 30 1 ∷ []

abbrev signal : TrafficSignal ℤ
signal = record {
  green_phase = 1;
  num_green_phases = 2;
  time_since_last_phase_change = fixed.ratio 30 1;
  lanes_queue = some busy;
  lanes_density = some busy;
  out_lanes_density = some busy;
  served = none;
}

abbrev cameras : ObservationBuilder ℤ
cameras = record { current_phase = pos 1; phase_start_time = fixed.ratio 10 1 }

build-canonical_example :
    let counts : List ℤ = camera_queue 4 ∷ camera_queue 1 ∷ camera_queue 0 ∷ camera_queue 30 ∷ [] in
    (canonical17 (fixed.ratio 63 1) signal
      ≡ some (
          canonical
            (aggregate_directions busy (fixed.ratio 20 1))
            (aggregate_directions busy (fixed.ratio 1 1))
            (1 % 4)
            (clip01 (fixed.div (fixed.ratio 30 1) (max_f (fixed.ratio 63 1) (fixed.ratio 1 1))))
            (aggregate_directions busy (fixed.ratio 1 1))))
    × (build cameras (fixed.ratio 40 1) 4 1 0 30
        ≡ canonical counts counts
            (py_mod (pos 1) 4)
            (elapsed_in_window (fixed.sub (fixed.ratio 40 1) (fixed.ratio 10 1)))
            (zeros 4))
build-canonical_example =
    build-canonical signal (fixed.ratio 63 1) (fixed.ratio 40 1) busy busy busy cameras 4 1 0 30
      refl refl refl

-- For the four lanes of this signal, the two observations are the same.
canonical17-cameras :
    canonical17 (fixed.ratio 63 1) (record signal {
      lanes_density = some (map (λ x. fixed.div x (fixed.ratio 20 1)) busy);
      out_lanes_density = some [];
    })
    ≡ some (build cameras (fixed.ratio 40 1) 4 1 0 30)
unfolding canonical17 build aggregate_directions semaforo.Float.clip semaforo.Float.sum_f
canonical17-cameras = refl
