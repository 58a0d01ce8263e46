-- ===== src/Network/Graph.antt =====
-- network/coordinator/src/graph_manager.py over an abstract `networkx` graph.
pub mod Roads
pub mod Presence
pub mod Lookup
use semaforo.Prelude.{
  ℕ, zero, suc, ◌≡◌, String, Bool, true, false, ◌||◌, Option, none, some, List, [], ◌∷◌, ◌++◌, map,
  str_eq, leb, ◌==◌, if◌then◌else◌, length,
}
use semaforo.Prelude.Dict
use semaforo.Prelude.Dict.{Dict}
use semaforo.Prelude.Text.{◌+++◌, sorted}
use semaforo.Float.{Float}
use semaforo.Network.DiGraph.{
  NodeAttrs, EdgeAttrs, PathResult, found, no_path, node_not_found, DiGraph,
}

-- One object of the "intersections" list, as `json.load` gives it; `none` is a key that is not there.
pub record IntersectionSpec (W : Type 0) : Type 0 where
  pub id : Option String
  pub name : Option String
  pub latitude : Option W
  pub longitude : Option W
  pub zone_id : Option String
  pub num_approaches : Option ℕ

-- One object of the "roads" list.
pub record RoadSpec (W : Type 0) : Type 0 where
  pub id : Option String
  pub source_id : Option String
  pub target_id : Option String
  pub distance_m : Option W
  pub speed_limit_kmh : Option W
  pub lanes : Option ℕ
  pub road_class : Option String
  pub one_way : Option Bool

pub record Topology (W : Type 0) : Type 0 where
  pub intersections : List (IntersectionSpec W)
  pub roads : List (RoadSpec W)

pub record GraphManager (W G : Type 0) : Type 0 where
  pub graph : G
  pub intersections : Dict (IntersectionSpec W)
  pub roads : Dict (RoadSpec W)

-- A float, or float("inf").
pub data Distance (W : Type 0) : Type 0 where
  finite : W → Distance W
  infinite : Distance W

-- d.get(k, default)
abbrev pub or_else {ℓ} : {A : Type ℓ} → Option A → A → A
or_else none d = d
or_else (some a) d = a

infixl 5 ◌>>=◌
abbrev pub ◌>>=◌ {ℓ κ} : {A : Type ℓ} {B : Type κ} → Option A → (A → Option B) → Option B
none >>= k = none
some a >>= k = k a

module _ {W : Type 0} ⦃f : Float W⦄ where
  unfoldable pub road_attrs : String → RoadSpec W → EdgeAttrs W
  road_attrs edge_id road = record {
    id = edge_id;
    distance_m = or_else road.distance_m (f.ratio 0 1);
    speed_limit_kmh = or_else road.speed_limit_kmh (f.ratio 50 1);
    lanes = or_else road.lanes 2;
    road_class = or_else road.road_class "secondary";
  }

  unfoldable pub edge_distance : Option (EdgeAttrs W) → W
  edge_distance none = f.ratio 0 1
  edge_distance (some a) = a.distance_m

  unfoldable pub edge_speed : Option (EdgeAttrs W) → W
  edge_speed none = f.ratio 50 1
  edge_speed (some a) = a.speed_limit_kmh

module _ {W G : Type 0} ⦃f : Float W⦄ ⦃g : DiGraph W G⦄ where
  abbrev pub empty_manager : GraphManager W G
  empty_manager = record { graph = g.empty; intersections = []; roads = [] }

  -- One round of the loop over the intersections; `none` is the KeyError of a missing "id".
  unfoldable pub load_intersection :
      GraphManager W G → IntersectionSpec W → Option (GraphManager W G)
  load_intersection m spec = do
    int_id ← spec.id
    some (record m {
      intersections = Dict.put m.intersections int_id spec;
      graph = g.add_node m.graph int_id (record {
        name = or_else spec.name "";
        lat = or_else spec.latitude (f.ratio 0 1);
        lng = or_else spec.longitude (f.ratio 0 1);
        zone_id = or_else spec.zone_id "default";
        num_approaches = or_else spec.num_approaches 4;
      });
    })

  -- The edge of a road, and the reverse edge unless the road is one-way.
  unfoldable pub add_road_edges : G → String → String → String → RoadSpec W → G
  add_road_edges h road_id source target road =
      let forth = g.add_edge h source target (road_attrs road_id road) in
      if or_else road.one_way false
      then forth
      else g.add_edge forth target source (road_attrs (road_id +++ "-rev") road)

  unfoldable pub load_road : GraphManager W G → RoadSpec W → Option (GraphManager W G)
  unfolding add_road_edges
  load_road m road = do
    road_id ← road.id
    source ← road.source_id
    target ← road.target_id
    some (record m {
      roads = Dict.put m.roads road_id road;
      graph = add_road_edges m.graph road_id source target road;
    })

  unfoldable pub load_intersections :
      GraphManager W G → List (IntersectionSpec W) → Option (GraphManager W G)
  load_intersections m [] = some m
  load_intersections m (spec ∷ specs) = do
    m' ← load_intersection m spec
    load_intersections m' specs

  unfoldable pub load_roads : GraphManager W G → List (RoadSpec W) → Option (GraphManager W G)
  load_roads m [] = some m
  load_roads m (road ∷ roads) = do m' ← load_road m road; load_roads m' roads

  -- `none` for the file is a file that is not there.
  unfoldable pub load_topology : Option (Topology W) → Option (GraphManager W G)
  load_topology none = some empty_manager
  load_topology (some file) = do
    m ← load_intersections empty_manager file.intersections
    load_roads m file.roads

  abbrev pub get_intersection : GraphManager W G → String → Option (IntersectionSpec W)
  get_intersection m id = Dict.get m.intersections id

  unfoldable pub get_all_intersection_ids : GraphManager W G → List String
  unfolding Dict.keys
  get_all_intersection_ids m = Dict.keys m.intersections

  abbrev pub intersection_count : GraphManager W G → ℕ
  intersection_count m = length m.intersections

  abbrev pub road_count : GraphManager W G → ℕ
  road_count m = length m.roads

  unfoldable pub get_neighbors : GraphManager W G → String → List String
  get_neighbors m u = or_else (g.neighbors m.graph u) []

  unfoldable pub get_edge_distance : GraphManager W G → String → String → W
  unfolding edge_distance
  get_edge_distance m u v = edge_distance (g.edge m.graph u v)

  unfoldable pub get_edge_speed_limit : GraphManager W G → String → String → W
  unfolding edge_speed
  get_edge_speed_limit m u v = edge_speed (g.edge m.graph u v)

  unfoldable pub shortest_path : GraphManager W G → String → String → List String
  shortest_path m s t = elim (g.shortest_path m.graph s t) [
    | found p ↦ p
    | no_path ↦ []
    | node_not_found ↦ []
  ]

  unfoldable pub shortest_path_length : GraphManager W G → String → String → Distance W
  shortest_path_length m s t = elim (g.shortest_path_length m.graph s t) [
    | none ↦ infinite
    | some d ↦ finite d
  ]
