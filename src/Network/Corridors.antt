-- ===== src/Network/Corridors.antt =====
-- network/coordinator/src/graph_manager.py: `identify_corridors`.
use semaforo.Prelude.{
  String, Bool, ◌||◌, Option, none, some, List, [], ◌∷◌, ◌++◌, map, str_eq, ◌==◌, if◌then◌else◌,
}
use semaforo.Prelude.Text.{sorted}
use semaforo.Network.DiGraph.{EdgeAttrs, PathResult, found, no_path, node_not_found, DiGraph}
use semaforo.Network.Graph.{GraphManager, ◌>>=◌}

module _ {W : Type 0} where
  -- The ends of the edges whose road class is "primary".
  unfoldable pub primary_ends : List (String × String × EdgeAttrs W) → List (String × String)
  primary_ends [] = []
  primary_ends ((u, v, a) ∷ es) =
      let rest = primary_ends es in if str_eq a.road_class "primary" then (u, v) ∷ rest else rest

  unfoldable pub all_ends : List (String × String × EdgeAttrs W) → List (String × String)
  all_ends es = map (λ e. (e.0, e.1)) es

abbrev pub or_if_empty {ℓ} : {A : Type ℓ} → List A → List A → List A
or_if_empty [] ys = ys
or_if_empty (x ∷ xs) ys = x ∷ xs

-- xs[-1], with `x` for `xs[0]`
abbrev pub last_of {ℓ} : {A : Type ℓ} → A → List A → A
last_of x [] = x
last_of x (y ∷ ys) = last_of y ys

-- The endpoints are tried only if there are two of them: the first and the last.
abbrev pub ends_of : List String → Option (String × String)
ends_of [] = none
ends_of (x ∷ []) = none
ends_of (x ∷ y ∷ ys) = some (x, last_of y ys)

-- `elif component: corridors.append(sorted(component))`
abbrev pub sorted_corridor : List String → List (List String)
sorted_corridor [] = []
sorted_corridor (x ∷ xs) = sorted (x ∷ xs) ∷ []

-- `none` is `NodeNotFound`, which is not caught.
abbrev pub path_corridor : List String → PathResult → Option (List (List String))
path_corridor c (found p) = some (p ∷ [])
path_corridor c no_path = some (sorted c ∷ [])
path_corridor c node_not_found = none

module _ (W : Type 0) {G : Type 0} ⦃g : DiGraph W G⦄ where
  abbrev pub is_endpoint : G → String → Bool
  is_endpoint h n = g.in_degree h n == 0 || g.out_degree h n == 0

  unfoldable pub endpoints : G → List String → List String
  endpoints h [] = []
  endpoints h (n ∷ ns) = let rest = endpoints h ns in if is_endpoint h n then n ∷ rest else rest

  -- What the body of the loop appends for one component.
  unfoldable pub component_corridors : G → List String → Option (List (List String))
  unfolding endpoints
  component_corridors primary c =
      let sub = g.subgraph primary c in
      elim (ends_of (endpoints sub (g.nodes sub))) [
        | none ↦ some (sorted_corridor c)
        | some (s, t) ↦ path_corridor c (g.shortest_path sub s t)
      ]

  unfoldable pub corridors_from : G → List (List String) → Option (List (List String))
  corridors_from primary [] = some []
  corridors_from primary (c ∷ cs) = do
    here ← component_corridors primary c
    rest ← corridors_from primary cs
    some (here ++ rest)

  unfoldable pub primary_graph : G → G
  unfolding primary_ends all_ends
  primary_graph h =
      g.edge_subgraph h (or_if_empty (primary_ends (g.edges h)) (all_ends (g.edges h)))

module _ {W G : Type 0} ⦃g : DiGraph W G⦄ where
  unfoldable pub identify_corridors : GraphManager W G → Option (List (List String))
  unfolding primary_graph
  identify_corridors m =
      let primary = primary_graph W m.graph in
      corridors_from W primary (g.weakly_connected_components primary)
