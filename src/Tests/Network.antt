-- ===== src/Tests/Network.antt =====
-- Examples of the road network, the corridors and their plans, on three intersections in a row.
use semaforo.Prelude.{◌≡◌, refl, some, [], ◌∷◌, All, ℤ, pos, arith}
use semaforo.Prelude.Text.{show_int, sorted}
use semaforo.Prelude.Dict.{put, keys}
use semaforo.Float.Fixed.{fixed}
use semaforo.Network.Message.{TimingPlan}
use semaforo.Network.Graph.{
  load_topology, load_intersections, load_intersection, load_roads, load_road, add_road_edges,
  road_attrs, get_edge_distance, get_edge_speed_limit, edge_distance, shortest_path_length, finite,
  infinite, get_all_intersection_ids, intersection_count, road_count,
}
use semaforo.Network.Graph.Roads.{load_topology-IsSymmetric}
use semaforo.Network.Graph.Presence.{load_topology-HasRoad, HasRoad}
use semaforo.Network.Graph.Lookup.{load_topology-IsReadFrom, IsReadFrom}
use semaforo.Network.Corridors.{
  identify_corridors, corridors_from, component_corridors, endpoints, primary_graph, primary_ends,
}
use semaforo.Network.Plan.{compute_corridor_plan, entries_from, next_distance, entry, offset_s}
use semaforo.Network.Plan.Offsets.{compute_corridor_plan-IsPlanned, IsPlanned}
use semaforo.Tests.Roads.{RoadList, road_list, road_list-IsDiGraph, three_in_a_row, row_manager}

row_manager-loaded : load_topology {W = ℤ} {G = RoadList} (some three_in_a_row) ≡ some row_manager
unfolding load_topology load_intersections load_intersection load_roads load_road add_road_edges
    road_attrs put
row_manager-loaded = refl

neighbour_length : shortest_path_length row_manager "a" "b" ≡ finite (fixed.ratio 500 1)
unfolding shortest_path_length
neighbour_length = refl

no_length : shortest_path_length row_manager "a" "c" ≡ infinite
unfolding shortest_path_length
no_length = refl

all_ids : get_all_intersection_ids row_manager ≡ "c" ∷ "b" ∷ "a" ∷ []
unfolding get_all_intersection_ids keys
all_ids = refl

counts : (intersection_count row_manager ≡ 3) × (road_count row_manager ≡ 2)
counts = (refl, refl)

load_topology-IsSymmetric_example :
    (get_edge_distance row_manager "a" "b" ≡ get_edge_distance row_manager "b" "a")
    × (get_edge_speed_limit row_manager "a" "b" ≡ get_edge_speed_limit row_manager "b" "a")
load_topology-IsSymmetric_example =
    load_topology-IsSymmetric road_list-IsDiGraph three_in_a_row row_manager (refl, (refl, tt))
      row_manager-loaded "a" "b"

load_topology-HasRoad_example : All (HasRoad row_manager.graph) three_in_a_row.roads
load_topology-HasRoad_example =
    load_topology-HasRoad road_list-IsDiGraph three_in_a_row row_manager row_manager-loaded

load_topology-IsReadFrom_example :
    IsReadFrom three_in_a_row "b" (load_topology {W = ℤ} {G = RoadList} (some three_in_a_row))
load_topology-IsReadFrom_example = load_topology-IsReadFrom RoadList three_in_a_row "b"

-- With two-way roads no intersection counts as an endpoint.
row_corridors : identify_corridors row_manager ≡ some (("a" ∷ "b" ∷ "c" ∷ []) ∷ [])
unfolding identify_corridors corridors_from component_corridors endpoints primary_graph primary_ends
    sorted
row_corridors = refl

abbrev row_plan : TimingPlan ℤ
row_plan = record {
  plan_id = "plan-1000";
  timestamp = pos 1_000_000;
  zone_id = "zone-default";
  cycle_length_s = 90;
  corridors =
      record {
        corridor_id = "corridor-a-c";
        name = "Corridor a to c";
        design_speed_kmh = fixed.ratio 50 1;
        intersections =
            record { intersection_id = "a"; offset_s = 0; cycle_length_s = 90 }
            ∷ record { intersection_id = "b"; offset_s = 36; cycle_length_s = 90 }
            ∷ record { intersection_id = "c"; offset_s = 54; cycle_length_s = 90 }
            ∷ [];
      }
      ∷ [];
  source = "coordinator";
}

abbrev thousand : ℤ
thousand = fixed.ratio 1000 1

row_plan-computed :
    compute_corridor_plan row_manager thousand thousand ("a" ∷ "b" ∷ "c" ∷ []) ≡ some row_plan
unfolding compute_corridor_plan entries_from next_distance entry offset_s get_edge_distance
    edge_distance show_int
row_plan-computed = refl

compute_corridor_plan-IsPlanned_example : IsPlanned row_manager ("a" ∷ "b" ∷ "c" ∷ []) 2 row_plan
compute_corridor_plan-IsPlanned_example =
    compute_corridor_plan-IsPlanned row_manager thousand thousand ("a" ∷ "b" ∷ "c" ∷ []) 2 row_plan
      (omega arith) row_plan-computed
