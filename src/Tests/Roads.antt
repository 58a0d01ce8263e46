-- ===== src/Tests/Roads.antt =====
-- A small directed graph, and a topology of three intersections in a row, for the examples.
use semaforo.Prelude.{
  ℕ, ◌+◌, refl, String, Bool, true, false, ◌&&◌, Option, none, some, List, [], ◌∷◌, ◌++◌, str_eq,
  if◌then◌else◌, ℤ,
}
use semaforo.Float.Fixed.{fixed}
use semaforo.Network.DiGraph.{EdgeAttrs, PathResult, found, no_path, DiGraph, IsDiGraph}
use semaforo.Network.Graph.{IntersectionSpec, RoadSpec, Topology, GraphManager}

pub record RoadList : Type 0 where
  pub names : List String
  pub roads : List (String × String × EdgeAttrs ℤ)

abbrev pub find_road : List (String × String × EdgeAttrs ℤ) → String → String → Option (EdgeAttrs ℤ)
find_road [] u v = none
find_road ((s, t, a) ∷ es) u v =
    let rest = find_road es u v in
    if str_eq s u then (if str_eq t v then some a else rest) else rest

abbrev pub has_road : List (String × String × EdgeAttrs ℤ) → String → String → Bool
has_road es u v = elim (find_road es u v) [ none ↦ false | some a ↦ true ]

abbrev pub targets : List (String × String × EdgeAttrs ℤ) → String → List String
targets [] u = []
targets ((s, t, a) ∷ es) u = let rest = targets es u in if str_eq s u then t ∷ rest else rest

-- Paths over one intersection at most: enough for three in a row.
abbrev pub path_over :
    List (String × String × EdgeAttrs ℤ) → String → String → List String → PathResult
path_over es s t [] = no_path
path_over es s t (n ∷ ns) =
    let rest = path_over es s t ns in
    if has_road es s n && has_road es n t then found (s ∷ n ∷ t ∷ []) else rest

abbrev pub among : List (String × String) → String → String → Bool
among [] u v = false
among ((s, t) ∷ es) u v = let rest = among es u v in if str_eq s u && str_eq t v then true else rest

abbrev pub keep :
    List (String × String)
    → List (String × String × EdgeAttrs ℤ)
    → List (String × String × EdgeAttrs ℤ)
keep ends [] = []
keep ends ((s, t, a) ∷ es) =
    let rest = keep ends es in if among ends s t then (s, t, a) ∷ rest else rest

abbrev pub count_in : String → List (String × String × EdgeAttrs ℤ) → ℕ
count_in n [] = 0
count_in n ((s, t, a) ∷ es) = if str_eq t n then count_in n es + 1 else count_in n es

abbrev pub count_out : String → List (String × String × EdgeAttrs ℤ) → ℕ
count_out n [] = 0
count_out n ((s, t, a) ∷ es) = if str_eq s n then count_out n es + 1 else count_out n es

-- Of one road: enough for neighbours.
abbrev pub length_of : List (String × String × EdgeAttrs ℤ) → String → String → Option ℤ
length_of es s t = elim (find_road es s t) [ none ↦ none | some a ↦ some a.distance_m ]

-- All intersections make one component.
instance abbrev pub road_list : DiGraph ℤ RoadList
road_list = record {
  empty = record { names = []; roads = [] };
  add_node = λ h n a. record h { names = h.names ++ n ∷ [] };
  add_edge = λ h s t a. record h { roads = (s, t, a) ∷ h.roads };
  edge = λ h u v. find_road h.roads u v;
  neighbors = λ h u. some (targets h.roads u);
  shortest_path =
      λ h s t. if has_road h.roads s t then found (s ∷ t ∷ []) else path_over h.roads s t h.names;
  shortest_path_length = λ h s t. length_of h.roads s t;
  edges = λ h. h.roads;
  edge_subgraph = λ h ends. record h { roads = keep ends h.roads };
  weakly_connected_components = λ h. h.names ∷ [];
  subgraph = λ h ns. h;
  nodes = λ h. h.names;
  in_degree = λ h n. count_in n h.roads;
  out_degree = λ h n. count_out n h.roads;
}

pub road_list-IsDiGraph : IsDiGraph ℤ RoadList
road_list-IsDiGraph = record {
  edge-empty = λ u v. refl;
  edge-add_node = λ h n u v a. refl;
  edge-add_edge = λ h s t u v a. refl;
}

abbrev pub crossing : String → IntersectionSpec ℤ
crossing id = record {
  id = some id;
  name = none;
  latitude = none;
  longitude = none;
  zone_id = none;
  num_approaches = none;
}

abbrev pub street : String → String → String → ℕ → RoadSpec ℤ
street id s t metres = record {
  id = some id;
  source_id = some s;
  target_id = some t;
  distance_m = some (fixed.ratio metres 1);
  speed_limit_kmh = none;
  lanes = none;
  road_class = some "primary";
  one_way = none;
}

abbrev pub three_in_a_row : Topology ℤ
three_in_a_row = record {
  intersections = crossing "c" ∷ crossing "b" ∷ crossing "a" ∷ [];
  roads = street "r1" "a" "b" 500 ∷ street "r2" "b" "c" 250 ∷ [];
}

abbrev pub edge_of : String → ℕ → EdgeAttrs ℤ
edge_of id metres = record {
  id = id;
  distance_m = fixed.ratio metres 1;
  speed_limit_kmh = fixed.ratio 50 1;
  lanes = 2;
  road_class = "primary";
}

-- What the topology loads as.
abbrev pub row_manager : GraphManager ℤ RoadList
row_manager = record {
  graph = record {
    names = "c" ∷ "b" ∷ "a" ∷ [];
    roads =
        ("c", "b", edge_of "r2-rev" 250)
        ∷ ("b", "c", edge_of "r2" 250)
        ∷ ("b", "a", edge_of "r1-rev" 500)
        ∷ ("a", "b", edge_of "r1" 500)
        ∷ [];
  };
  intersections = ("c", crossing "c") ∷ ("b", crossing "b") ∷ ("a", crossing "a") ∷ [];
  roads = ("r1", street "r1" "a" "b" 500) ∷ ("r2", street "r2" "b" "c" 250) ∷ [];
}
