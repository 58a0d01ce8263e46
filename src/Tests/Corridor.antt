-- ===== src/Tests/Corridor.antt =====
-- Examples of the corridor environment: three signals, for which an episode that ends has a next one,
-- and two, for which the reset raises.
use semaforo.Prelude.{ℕ, zero, suc, ◌≡◌, refl, true, none, some, List, [], ◌∷◌, map, ℤ}
use semaforo.Prelude.Dict
use semaforo.Prelude.Dict.{Dict}
use semaforo.Float.Fixed.{fixed, fixed-IsOrdered}
use semaforo.Environments.Signal.{TrafficSignal}
use semaforo.Environments.Corridor.{
  VecEnv, ResetAnswer, StepAnswer, is_global_done, step_wait, next_rows, reset, observations_of,
}
use semaforo.Environments.Corridor.Steps.{IsOutcome, step_wait-IsOutcome}

abbrev quarters : ℕ → List ℤ
quarters zero = []
quarters (suc n) = fixed.ratio 1 4 ∷ quarters n

abbrev signal_at : ℕ → TrafficSignal ℤ
signal_at phase = record {
  green_phase = phase;
  num_green_phases = 2;
  time_since_last_phase_change = fixed.ratio 30 1;
  lanes_queue = some (quarters 8);
  lanes_density = some (quarters 4);
  out_lanes_density = none;
  served = none;
}

abbrev env : VecEnv ℤ
env = record {
  ids = "c0" ∷ "c1" ∷ "c2" ∷ [];
  actions = ("c0", 1) ∷ ("c1", 0) ∷ ("c2", 1) ∷ [];
  phase_elapsed = [];
  last_obs_raw = observations_of [];
}

-- SUMO shows the phases that were asked for.
abbrev sumo : Dict ℕ → StepAnswer ℤ ℕ
sumo actions = record {
  raw_obs = [];
  signals = map (λ a. (signal_at a.1, some (quarters 2))) actions;
  dones = ("__all__", true) ∷ [];
  infos = ("c1", 7) ∷ [];
}

abbrev next_episode : ResetAnswer ℤ
next_episode = record {
  raw_obs = ("c0", []) ∷ ("c1", []) ∷ ("c2", []) ∷ [];
  signals = signal_at 0 ∷ signal_at 0 ∷ signal_at 0 ∷ [];
}

abbrev two_signals : VecEnv ℤ
two_signals = record env { ids = "c0" ∷ "c1" ∷ []; actions = ("c0", 1) ∷ ("c1", 0) ∷ [] }

two_signals_raise :
    step_wait two_signals sumo
      (record { raw_obs = ("c0", []) ∷ ("c1", []) ∷ []; signals = signal_at 0 ∷ signal_at 0 ∷ [] })
    ≡ none
unfolding step_wait next_rows reset Dict.get
two_signals_raise = refl

step_wait-IsOutcome_example :
    let answer = sumo env.actions in
    IsOutcome fixed-IsOrdered env answer next_episode
      (is_global_done env.ids answer.dones)
      (step_wait env sumo next_episode)
step_wait-IsOutcome_example = step_wait-IsOutcome fixed-IsOrdered env sumo next_episode refl refl
