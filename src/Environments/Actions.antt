-- ===== src/Environments/Actions.antt =====
-- The actions that reach SUMO: `SingleIntersectionEnv.step` (brain/src/environments/single_intersection.py),
-- `CorridorVecEnv.step_async` (corridor_env.py) and `MultiIntersectionEnv._clamp_actions`
-- (multi_intersection.py). Phases are numbered from 0.
pub mod Permitted
use semaforo.Prelude.{
  ℕ, zero, suc, ◌+◌, ◌%◌, Bool, true, false, ◌&&◌, not, String, Option, none, some, List, [], ◌∷◌,
  if◌then◌else◌, leb, ◌==◌, ℤ, py_mod,
}
use semaforo.Prelude.Dict
use semaforo.Prelude.Dict.{Dict}
use semaforo.Network.Graph.{◌>>=◌}
use semaforo.Environments.Signal.{TrafficSignal}

-- An action beyond the signal's phases keeps the phase.
unfoldable pub keep_in_range : ℕ → ℕ → ℕ → ℕ
keep_in_range current num action = if leb num action then current else action

-- Any other phase than the current one and the next becomes the next one.
unfoldable pub force_next : ℕ → ℕ → ℕ → ℕ
force_next current num action =
    if not (action == current) && not (action == (current + 1) % num)
    then (current + 1) % num
    else action

unfoldable pub correct_action : ℕ → ℕ → ℕ → ℕ
unfolding keep_in_range force_next
correct_action current num action = force_next current num (keep_in_range current num action)

module _ {W : Type 0} where
  -- The loop over the signals' names; `none` is a KeyError or an IndexError.
  unfoldable pub store_actions :
      Dict (TrafficSignal W) → Dict ℕ → List String → List ℕ → Option (Dict ℕ)
  unfolding correct_action
  store_actions signals stored [] actions = some stored
  store_actions signals stored (id ∷ ids) [] = none
  store_actions signals stored (id ∷ ids) (action ∷ actions) = do
    ts ← Dict.get signals id
    store_actions signals
        (Dict.put stored id (correct_action ts.green_phase ts.num_green_phases action)) ids actions

  -- The new `_actions`; those of the step before are dropped.
  unfoldable pub step_async : Dict (TrafficSignal W) → List String → List ℕ → Option (Dict ℕ)
  unfolding store_actions
  step_async signals ids actions = store_actions signals [] ids actions

  -- getattr(ts, "num_green_phases", _NUM_GREEN_PHASES) or _NUM_GREEN_PHASES
  unfoldable pub phase_count : Option (TrafficSignal W) → ℕ
  phase_count none = 2
  phase_count (some ts) = if ts.num_green_phases == 0 then 2 else ts.num_green_phases

  unfoldable pub clamp_from : Dict (TrafficSignal W) → Dict ℕ → List (String × ℤ) → Dict ℕ
  unfolding phase_count
  clamp_from signals safe [] = safe
  clamp_from signals safe ((agent, act) ∷ actions) =
      clamp_from signals (Dict.put safe agent (py_mod act (phase_count (Dict.get signals agent))))
        actions

  unfoldable pub clamp_actions : Dict (TrafficSignal W) → List (String × ℤ) → Dict ℕ
  unfolding clamp_from
  clamp_actions signals actions = clamp_from signals [] actions
