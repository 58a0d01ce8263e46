-- ===== src/Coordination/GraphModel.antt =====
-- brain/src/coordination/graph_model.py: `TrafficNetwork`, a directed graph of intersections and roads.
-- A KeyError, a TypeError and a ValueError are `none`. `float("inf")` is `none` too, as a time.
pub mod Heap
pub mod Dijkstra
pub mod Stored
pub mod Closed
pub mod StoredLaws
use semaforo.Prelude.{
  is_some, length, ◌+◌, ℕ, String, Option, none, some, List, [], ◌∷◌, ◌++◌, map, if◌then◌else◌,
  Bool, true, false, str_eq,
}
use semaforo.Prelude.Dict
use semaforo.Prelude.Dict.{Dict}
use semaforo.Float.{Float}
use semaforo.Network.Graph.{or_else, ◌>>=◌}

-- A value of `metadata`: plain ones only.
pub data Value (W : Type 0) : Type 0 where
  text : String → Value W
  number : W → Value W
  integer : ℕ → Value W

pub record IntersectionNode (W : Type 0) : Type 0 where
  pub id : String
  pub lat : W
  pub lon : W
  pub metadata : Dict (Value W)

pub record RoadEdge (W : Type 0) : Type 0 where
  pub source : String
  pub target : String
  pub length_m : W
  pub speed_limit_kmh : W
  pub lanes : ℕ
  pub metadata : Dict (Value W)

-- `_nodes` and `_edges`, the adjacency list.
pub record TrafficNetwork (W : Type 0) : Type 0 where
  pub nodes : Dict (IntersectionNode W)
  pub edges : Dict (List (RoadEdge W))

module _ {W : Type 0} where
  abbrev pub empty_network : TrafficNetwork W
  empty_network = record { nodes = []; edges = [] }

  -- self._edges.setdefault(node_id, [])
  unfoldable pub set_default : Dict (List (RoadEdge W)) → String → Dict (List (RoadEdge W))
  set_default edges id = elim (Dict.get edges id) [ none ↦ Dict.put edges id [] | some es ↦ edges ]

  unfoldable pub add_intersection :
      TrafficNetwork W → String → W → W → Dict (Value W) → TrafficNetwork W
  unfolding set_default
  add_intersection net id lat lon metadata = record {
    nodes = Dict.put net.nodes id (record { id = id; lat = lat; lon = lon; metadata = metadata });
    edges = set_default net.edges id;
  }

  unfoldable pub get_intersection : TrafficNetwork W → String → Option (IntersectionNode W)
  get_intersection net id = Dict.get net.nodes id

  -- self._edges[source].append(edge)
  unfoldable pub append_edge :
      Dict (List (RoadEdge W)) → RoadEdge W → Option (Dict (List (RoadEdge W)))
  append_edge edges e = do
    es ← Dict.get edges e.source
    some (Dict.put edges e.source (es ++ e ∷ []))

  unfoldable pub add_road : TrafficNetwork W → RoadEdge W → Option (TrafficNetwork W)
  unfolding append_edge
  add_road net e = do
    source ← Dict.get net.nodes e.source
    target ← Dict.get net.nodes e.target
    edges ← append_edge net.edges e
    some (record net { edges = edges })

  -- self._edges.get(node_id, [])
  abbrev pub roads : TrafficNetwork W → String → List (RoadEdge W)
  roads net u = or_else (Dict.get net.edges u) []

  unfoldable pub neighbors : TrafficNetwork W → String → List String
  neighbors net u = map (λ e. e.target) (roads net u)

-- sum(len(el) for el in self._edges.values())
unfoldable pub edge_count : {W : Type 0} → Dict (List (RoadEdge W)) → ℕ
edge_count [] = 0
edge_count ((u, es) ∷ edges) = length es + edge_count edges

module _ {W : Type 0} ⦃f : Float W⦄ where
  -- In seconds; infinite without a positive speed limit.
  unfoldable pub travel_time : RoadEdge W → Option W
  travel_time e =
      if f.le e.speed_limit_kmh (f.ratio 0 1)
      then none
      else some (f.div e.length_m (f.div e.speed_limit_kmh (f.ratio 36 10)))
