-- ===== src/Tests/GraphModel.antt =====
-- Examples of the road graph: a ring of three intersections with a detour.
use semaforo.Prelude.{
  arith, String, ◌≡◌, refl, Option, some, none, List, [], ◌∷◌, ◌++◌, All, ℤ, ℕ, true,
}
use semaforo.Float.Fixed.{fixed, fixed-IsOrdered}
use semaforo.Coordination.GraphModel.{
  RoadEdge, TrafficNetwork, IntersectionNode, empty_network, edge_count, add_intersection, add_road,
  neighbors,
}
use semaforo.Coordination.GraphModel.Closed.{
  empty_network-IsClosed, IsClosed, add_intersection-IsClosed,
}
use semaforo.Coordination.GraphModel.Stored.{load, to_dict}
use semaforo.Coordination.GraphModel.StoredLaws.{load-to_dict}
use semaforo.Coordination.GraphModel.Dijkstra.{Outcome, shortest_path, found}
use semaforo.Coordination.GraphModel.Dijkstra.Walks.{forward_roads}
use semaforo.Coordination.GraphModel.Dijkstra.Correct.{Best, shortest_path-Best}

abbrev road_between : String → String → ℕ → RoadEdge ℤ
road_between a b metres = record {
  source = a;
  target = b;
  length_m = fixed.ratio metres 1;
  speed_limit_kmh = fixed.ratio 36 1;
  lanes = 1;
  metadata = [];
}

abbrev crossing : String → IntersectionNode ℤ
crossing id = record { id = id; lat = fixed.ratio 0 1; lon = fixed.ratio 0 1; metadata = [] }

-- From A to C it is 900 metres at once, and 500 by B.
abbrev town : TrafficNetwork ℤ
town = record {
  nodes = ("A", crossing "A") ∷ ("B", crossing "B") ∷ ("C", crossing "C") ∷ [];
  edges =
      ("A", road_between "A" "C" 900 ∷ road_between "A" "B" 200 ∷ [])
      ∷ ("B", road_between "B" "C" 300 ∷ [])
      ∷ ("C", road_between "C" "A" 400 ∷ [])
      ∷ [];
}

shortest_path_town :
    shortest_path 9 town "A" "C" ≡ some (found ("A" ∷ "B" ∷ "C" ∷ []) (fixed.ratio 50 1))
unfolding shortest_path semaforo.Prelude.Dict.get semaforo.Prelude.Dict.put
    semaforo.Coordination.GraphModel.Heap.heappop semaforo.Coordination.GraphModel.travel_time
shortest_path_town = refl

shortest_path-Best_example :
    (o : Outcome ℤ) × (shortest_path 6 town "A" "C" ≡ some o) × Best town "A" "C" o
unfolding semaforo.Prelude.Dict.get semaforo.Coordination.GraphModel.travel_time edge_count
shortest_path-Best_example =
    shortest_path-Best fixed-IsOrdered town "A" "C" 6 (crossing "A") (crossing "C")
      (forward_roads town ((refl, (refl, tt)), ((refl, tt), ((refl, tt), tt)))) refl refl
      (omega arith)

load-to_dict_example : load (to_dict town) ≡ none
unfolding semaforo.Prelude.Dict.get
load-to_dict_example =
    load-to_dict town "A" (crossing "A") (("B", crossing "B") ∷ ("C", crossing "C") ∷ []) refl refl

-- A village of two intersections, without roads.
abbrev village : TrafficNetwork ℤ
village =
    let north = add_intersection empty_network "A" (fixed.ratio 0 1) (fixed.ratio 0 1) [] in
    add_intersection north "C" (fixed.ratio 0 1) (fixed.ratio 0 1) []

village-IsClosed : IsClosed village
village-IsClosed =
    add_intersection-IsClosed _ "C" (fixed.ratio 0 1) (fixed.ratio 0 1) [] (
      add_intersection-IsClosed _ "A" (fixed.ratio 0 1) (fixed.ratio 0 1) [] empty_network-IsClosed)
