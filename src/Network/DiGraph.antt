-- ===== src/Network/DiGraph.antt =====
-- `networkx.DiGraph`, which the coordinator keeps its road network in: a parameter of the models.
use semaforo.Prelude.{ℕ, ◌≡◌, String, Option, none, some, List, str_eq, if◌then◌else◌}

pub record NodeAttrs (W : Type 0) : Type 0 where
  pub name : String
  pub lat : W
  pub lng : W
  pub zone_id : String
  pub num_approaches : ℕ

pub record EdgeAttrs (W : Type 0) : Type 0 where
  pub id : String
  pub distance_m : W
  pub speed_limit_kmh : W
  pub lanes : ℕ
  pub road_class : String

-- `nx.shortest_path`: the list of nodes, `NetworkXNoPath`, or `NodeNotFound`.
pub data PathResult : Type 0 where
  found : List String → PathResult
  no_path node_not_found : PathResult

-- The part of `networkx.DiGraph` that the program calls. `edge g u v` is `g[u][v]`, and `none` where
-- that raises `KeyError`; `neighbors g u` is `none` where `u` is not in the graph, and
-- `shortest_path_length g u v` where it raises `NetworkXNoPath` or `NodeNotFound`.
pub record DiGraph (W : Type 0) (G : Type 0) : Type 0 where
  pub empty : G
  pub add_node : G → String → NodeAttrs W → G
  pub add_edge : G → String → String → EdgeAttrs W → G
  pub edge : G → String → String → Option (EdgeAttrs W)
  pub neighbors : G → String → Option (List String)
  pub shortest_path : G → String → String → PathResult
  pub shortest_path_length : G → String → String → Option W
  pub edges : G → List (String × String × EdgeAttrs W)
  pub edge_subgraph : G → List (String × String) → G
  pub weakly_connected_components : G → List (List String)
  pub subgraph : G → List String → G
  pub nodes : G → List String
  pub in_degree : G → String → ℕ
  pub out_degree : G → String → ℕ

-- What networkx documents of edges: `add_edge` with every attribute given sets that edge alone.
pub record IsDiGraph (W G : Type 0) ⦃g : DiGraph W G⦄ : Type 0 where
  pub edge-empty : (u v : String) → g.edge g.empty u v ≡ none
  pub edge-add_node :
      (h : G) (n u v : String) (a : NodeAttrs W) → g.edge (g.add_node h n a) u v ≡ g.edge h u v
  pub edge-add_edge :
      (h : G) (s t u v : String) (a : EdgeAttrs W)
      → g.edge (g.add_edge h s t a) u v
        ≡ (if str_eq s u then (if str_eq t v then some a else g.edge h u v) else g.edge h u v)
