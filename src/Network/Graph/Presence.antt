-- ===== src/Network/Graph/Presence.antt =====
-- Every road of a topology file has its edge, and its reverse edge, in the loaded graph.
use mathlib.Core.Option.{some-injective}
use mathlib.Core.Path.{subst}
use text.Mathlib.TextPositions.{eq_refl}
use semaforo.Prelude.{
  ◌≡◌, String, false, Option, none, some, List, [], ◌∷◌, str_eq, All, ◌∙◌, sym, if_ind,
}
use semaforo.Float.{Float}
use semaforo.Network.DiGraph.{EdgeAttrs, DiGraph, IsDiGraph}
use semaforo.Network.Graph.{
  RoadSpec, Topology, GraphManager, or_else, empty_manager, road_attrs, add_road_edges, load_road,
  load_intersections, load_roads, load_topology,
}
use semaforo.Network.Graph.Roads.{bind_some}

abbrev pub IsSome {ℓ} : {A : Type ℓ} → Option A → Type 0
IsSome none = ⊥
IsSome (some a) = Unit

module _ {W G : Type 0} ⦃g : DiGraph W G⦄ where
  -- What a road of the file promises of the graph.
  abbrev pub HasRoad : G → RoadSpec W → Type 0
  HasRoad h road =
      (s t : String)
      → road.source_id ≡ some s
      → road.target_id ≡ some t
      → IsSome (g.edge h s t) × (or_else road.one_way false ≡ false → IsSome (g.edge h t s))

module _ {W G : Type 0} ⦃f : Float W⦄ ⦃g : DiGraph W G⦄ (laws : IsDiGraph W G) where
  open laws use {edge-add_node, edge-add_edge}

  add_edge-IsSome :
      (h : G) (s t u v : String) (a : EdgeAttrs W)
      → IsSome (g.edge h u v)
      → IsSome (g.edge (g.add_edge h s t a) u v)
  add_edge-IsSome h s t u v a k =
      rw (edge-add_edge h s t u v a)
        (if_ind IsSome (str_eq s u) (if_ind IsSome (str_eq t v) tt k) k)

  add_edge-IsSome_self :
      (h : G) (s t : String) (a : EdgeAttrs W) → IsSome (g.edge (g.add_edge h s t a) s t)
  add_edge-IsSome_self h s t a = rw (edge-add_edge h s t s t a, eq_refl s, eq_refl t) tt

  add_road_edges-IsSome :
      (h : G) (id s t : String) (road : RoadSpec W) (u v : String)
      → IsSome (g.edge h u v)
      → IsSome (g.edge (add_road_edges h id s t road) u v)
  unfolding add_road_edges
  add_road_edges-IsSome h id s t road u v k =
      let forth = add_edge-IsSome h s t u v (road_attrs id road) k in
      if_ind (λ x. IsSome (g.edge x u v)) (or_else road.one_way false) forth
        (add_edge-IsSome _ t s u v _ forth)

  add_road_edges-HasRoad :
      (h : G) (id s t : String) (road : RoadSpec W)
      → IsSome (g.edge (add_road_edges h id s t road) s t)
        × (or_else road.one_way false ≡ false → IsSome (g.edge (add_road_edges h id s t road) t s))
  unfolding add_road_edges
  add_road_edges-HasRoad h id s t road =
      let forth = add_edge-IsSome_self h s t (road_attrs id road) in
      (
        if_ind (λ x. IsSome (g.edge x s t)) (or_else road.one_way false) forth
            (add_edge-IsSome _ t s s t _ forth),
        λ two. rw two (add_edge-IsSome_self _ t s _),
      )

  HasRoad-intro :
      (h : G) (road : RoadSpec W) (s t : String)
      → road.source_id ≡ some s
      → road.target_id ≡ some t
      → IsSome (g.edge h s t) × (or_else road.one_way false ≡ false → IsSome (g.edge h t s))
      → HasRoad h road
  HasRoad-intro h road s t es et k s' t' es' et' =
      rw (← some-injective s s' (sym es ∙ es'), ← some-injective t t' (sym et ∙ et')) k

  load_road-keeps :
      (m n : GraphManager W G) (road : RoadSpec W)
      → load_road m road ≡ some n
      → ((u v : String) → IsSome (g.edge m.graph u v) → IsSome (g.edge n.graph u v))
        × HasRoad n.graph road
  unfolding load_road
  load_road-keeps m n road h =
      let (id, _, h1) = bind_some road.id _ n h in
      let (s, es, h2) = bind_some road.source_id _ n h1 in
      let (t, et, h3) = bind_some road.target_id _ n h2 in
      subst
        (λ (n : GraphManager W G).
          ((u v : String) → IsSome (g.edge m.graph u v) → IsSome (g.edge n.graph u v))
          × HasRoad n.graph road)
        (some-injective _ n h3)
        (
          (λ u v k. add_road_edges-IsSome m.graph id s t road u v k),
          HasRoad-intro _ road s t es et (add_road_edges-HasRoad m.graph id s t road),
        )

  load_roads-keeps :
      (roads : List (RoadSpec W)) (m n : GraphManager W G)
      → load_roads m roads ≡ some n
      → ((u v : String) → IsSome (g.edge m.graph u v) → IsSome (g.edge n.graph u v))
        × All (HasRoad n.graph) roads
  unfolding load_roads
  load_roads-keeps [] m n h = (
    subst
        (λ (n : GraphManager W G).
          (u v : String) → IsSome (g.edge m.graph u v) → IsSome (g.edge n.graph u v))
        (some-injective m n h) (λ u v k. k),
    tt,
  )
  load_roads-keeps (road ∷ roads) m n h =
      let (m', e, h') = bind_some (load_road m road) _ n h in
      let (old, this) = load_road-keeps m m' road e in
      let (later, rest) = load_roads-keeps roads m' n h' in
      (
        λ u v k. later u v (old u v k),
        (
          λ s t es et. (later s t (this s t es et).0, λ two. later t s ((this s t es et).1 two)),
          rest,
        ),
      )

  -- In a topology that loads, each road of the file has an edge from its source to its target, and
  -- one back unless it is one-way, whatever roads the file lists after it.
  pub load_topology-HasRoad :
      (file : Topology W) (m : GraphManager W G)
      → load_topology (some file) ≡ some m
      → All (HasRoad m.graph) file.roads
  unfolding load_topology
  load_topology-HasRoad file m h =
      let (m', _, h') = bind_some (load_intersections empty_manager file.intersections) _ m h in
      (load_roads-keeps file.roads m' m h').1
