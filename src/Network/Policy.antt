-- ===== src/Network/Policy.antt =====
-- network/coordinator/src/coordinator.py: `AIPolicyWrapper`. `session` is `onnxruntime`: it takes one
-- observation and gives its logits, or `none` where it raises.
pub mod Greedy
use semaforo.Prelude.{
  ℕ, zero, suc, ◌+◌, String, Option, none, some, List, [], ◌∷◌, map, str_eq, if◌then◌else◌, set,
  replicate, length, ◌==◌,
}
use semaforo.Float.{Float, lt, min_f, clip01}
use semaforo.Network.Graph.{◌>>=◌}

-- A count as the telemetry's JSON gives it: a number, a text that `float()` reads as one, null, or a
-- value that `float()` refuses.
pub data Count (W : Type 0) : Type 0 where
  number numeral : W → Count W
  null unreadable : Count W

pub record Telemetry (W : Type 0) : Type 0 where
  pub intersection_id : String
  pub phase : String
  pub vehicle_count : Count W
  pub total_vehicles : Count W
  pub flow_rate : Count W

-- _OBS_SIZE
abbrev pub obs_size : ℕ
obs_size = 17

-- _NUM_LANES
abbrev pub num_lanes : ℕ
num_lanes = 12

-- `_PHASE_BY_ACTION[a]`; past the end it is an IndexError, `none`.
abbrev pub phase_by_action : ℕ → Option String
phase_by_action zero = some "GREEN_NS"
phase_by_action (suc zero) = some "GREEN_EW"
phase_by_action _ = none

module _ {W : Type 0} ⦃f : Float W⦄ where
  -- _LANE_CAPACITY_VEHICLES
  abbrev pub lane_capacity_vehicles : W
  lane_capacity_vehicles = f.ratio 20 1

  -- float(count or 0)
  abbrev pub count_value : Count W → Option W
  count_value (number x) = some x
  count_value (numeral x) = some x
  count_value null = some (f.ratio 0 1)
  count_value unreadable = none

  unfoldable pub one_hot_phase : String → List W → List W
  one_hot_phase phase vec =
      if str_eq phase "GREEN_NS"
      then set vec 8 (f.ratio 1 1)
      else if str_eq phase "GREEN_EW"
      then set vec 9 (f.ratio 1 1)
      else vec

  unfoldable pub per_direction : W → W
  per_direction vehicles =
      min_f (f.ratio 1 1) (f.div (f.div vehicles (f.ratio num_lanes 1)) lane_capacity_vehicles)

  -- vec[start:start+n] = x
  unfoldable pub fill : ℕ → ℕ → W → List W → List W
  fill zero start x vec = vec
  fill (suc n) start x vec = fill n (start + 1) x (set vec start x)

  unfoldable pub telemetry_to_observation : Telemetry W → Option (List W)
  unfolding one_hot_phase per_direction fill
  telemetry_to_observation t = do
    vehicles ← count_value t.vehicle_count
    let share = per_direction vehicles
    let vec = fill 4 4 share (fill 4 0 share (replicate obs_size (f.ratio 0 1)))
    some (map clip01 (one_hot_phase t.phase vec))

  -- np.argmax: the first of the largest. `best` is the one so far, at `at`; `i` is the next position.
  unfoldable pub argmax_from : W → ℕ → ℕ → List W → ℕ
  argmax_from best at i [] = at
  argmax_from best at i (x ∷ xs) =
      argmax_from (if lt best x then x else best) (if lt best x then i else at) (i + 1) xs

  unfoldable pub argmax : List W → Option ℕ
  unfolding argmax_from
  argmax [] = none
  argmax (x ∷ xs) = some (argmax_from x 0 1 xs)

  -- The shape test on the observation, then the session.
  unfoldable pub infer : (List W → Option (List W)) → List W → Option (List W)
  infer session obs = if length obs == obs_size then session obs else none

  unfoldable pub predict : (List W → Option (List W)) → Telemetry W → Option String
  unfolding telemetry_to_observation infer argmax
  predict session t = do
    obs ← telemetry_to_observation t
    logits ← infer session obs
    action ← argmax logits
    phase_by_action action
