-- ===== src/Network/Plan.antt =====
-- network/coordinator/src/coordinator.py: the timing plan of one corridor.
pub mod Offsets
use semaforo.Prelude.{
  ℕ, zero, suc, ◌+◌, String, Bool, true, false, Option, none, some, List, [], ◌∷◌, if◌then◌else◌,
  py_mod, pos, ℤ,
}
use semaforo.Prelude.Text.{◌+++◌, show_int}
use semaforo.Float.{Float, lt}
use semaforo.Network.Message.{PlanEntry, CorridorPlan, TimingPlan, millis}
use semaforo.Network.DiGraph.{DiGraph}
use semaforo.Network.Graph.{GraphManager, get_edge_distance}
use semaforo.Network.Corridors.{last_of}

-- DEFAULT_CYCLE_LENGTH_S
abbrev pub default_cycle_length_s : ℕ
default_cycle_length_s = 90

module _ {W : Type 0} ⦃f : Float W⦄ where
  -- DEFAULT_DESIGN_SPEED_KMH, and the same in m/s
  abbrev pub default_design_speed_kmh : W
  default_design_speed_kmh = f.ratio 50 1

  abbrev pub design_speed_ms : W
  design_speed_ms = f.div default_design_speed_kmh (f.ratio 36 10)

  unfoldable pub offset_s : W → ℤ
  offset_s distance =
      if lt (f.ratio 0 1) design_speed_ms
      then f.truncate (f.div distance design_speed_ms)
      else pos 0

  unfoldable pub entry : String → W → PlanEntry
  unfolding offset_s
  entry id distance = record {
    intersection_id = id;
    offset_s = py_mod (offset_s distance) default_cycle_length_s;
    cycle_length_s = default_cycle_length_s;
  }

module _ {W G : Type 0} ⦃f : Float W⦄ ⦃g : DiGraph W G⦄ where
  unfoldable pub next_distance : GraphManager W G → Option String → String → W → W
  next_distance m none v distance = distance
  next_distance m (some u) v distance = f.add distance (get_edge_distance m u v)

  -- The loop over the corridor, with the intersection before and the distance so far.
  unfoldable pub entries_from : GraphManager W G → Option String → W → List String → List PlanEntry
  unfolding next_distance
  entries_from m prev distance [] = []
  entries_from m prev distance (id ∷ ids) =
      let distance' = next_distance m prev id distance in
      entry id distance' ∷ entries_from m (some id) distance' ids

  -- `t` and `u` are the two clock readings. A corridor of fewer than two intersections has no plan.
  unfoldable pub compute_corridor_plan :
      GraphManager W G → W → W → List String → Option (TimingPlan W)
  unfolding entries_from
  compute_corridor_plan m t u (a ∷ b ∷ rest) =
      let z = last_of b rest in
      some (record {
        plan_id = "plan-" +++ show_int (f.truncate t);
        timestamp = millis u;
        zone_id = "zone-default";
        cycle_length_s = default_cycle_length_s;
        corridors =
            record {
              corridor_id = "corridor-" +++ a +++ "-" +++ z;
              name = "Corridor " +++ a +++ " to " +++ z;
              design_speed_kmh = default_design_speed_kmh;
              intersections = entries_from m none (f.ratio 0 1) (a ∷ b ∷ rest);
            }
            ∷ [];
        source = "coordinator";
      })
  compute_corridor_plan m t u _ = none
