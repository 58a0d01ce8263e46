-- ===== src/Tests/Single.antt =====
-- An episode of two steps at one intersection, which ends at the second, with the composite reward.
use semaforo.Prelude.{ℕ, some, none, List, [], ◌∷◌, Bool, true, false, ℤ}
use semaforo.Float.Fixed.{fixed}
use semaforo.Environments.Signal.{TrafficSignal}
use semaforo.Environments.Single.{SumoAnswer, Move}

abbrev lights : ℕ → TrafficSignal ℤ
lights phase = record {
  green_phase = phase;
  num_green_phases = 2;
  time_since_last_phase_change = fixed.ratio 30 1;
  lanes_queue = some (fixed.ratio 4 1 ∷ fixed.ratio 1 1 ∷ []);
  lanes_density = some (fixed.ratio 1 2 ∷ []);
  out_lanes_density = some [];
  served = some [];
}

abbrev answer : Bool → ℕ → SumoAnswer ℤ
answer last action = record {
  raw_obs = fixed.ratio 1 1 ∷ [];
  raw_reward = fixed.ratio 7 1;
  terminated = false;
  truncated = last;
  signal = lights action;
  wait_times = none;
}

abbrev moves : List (Move ℤ)
moves =
    (lights 0, answer false, 0, fixed.ratio 5 1) ∷ (lights 0, answer true, 9, fixed.ratio 10 1) ∷ []
