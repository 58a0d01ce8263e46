-- ===== src/Network/Graph/Roads.antt =====
-- The edges of a loaded topology.
use mathlib.Core.Option.{some-injective}
use mathlib.Core.Path.{subst}
use semaforo.Prelude.{
  ◌≡◌, refl, String, false, Option, none, some, List, [], ◌∷◌, arith, str_eq, if◌then◌else◌, All,
  ◌∙◌,
}
use semaforo.Prelude.Text.{◌+++◌}
use semaforo.Float.{Float}
use semaforo.Network.DiGraph.{DiGraph, IsDiGraph}
use semaforo.Network.Graph.{
  IntersectionSpec, RoadSpec, Topology, GraphManager, or_else, ◌>>=◌, empty_manager,
  load_intersection, road_attrs, add_road_edges, load_road, load_intersections, load_roads,
  load_topology, edge_distance, edge_speed, get_edge_distance, get_edge_speed_limit,
}

pub bind_some {ℓ κ} :
    {A : Type ℓ} {B : Type κ} (o : Option A) (k : A → Option B) (b : B)
    → (o >>= k) ≡ some b
    → (a : A) × (o ≡ some a) × (k a ≡ some b)
bind_some none k b h = cc
bind_some (some a) k b h = (a, refl, h)

module _ {W G : Type 0} ⦃f : Float W⦄ ⦃g : DiGraph W G⦄ (laws : IsDiGraph W G) where
  open laws use {edge-empty, edge-add_node, edge-add_edge}

  -- The same length and the same limit in both directions.
  abbrev pub IsSymmetric : G → Type 0
  IsSymmetric h =
      (u v : String)
      → (edge_distance (g.edge h u v) ≡ edge_distance (g.edge h v u))
        × (edge_speed (g.edge h u v) ≡ edge_speed (g.edge h v u))

  abbrev pub IsTwoWay : RoadSpec W → Type 0
  IsTwoWay road = or_else road.one_way false ≡ false

  load_intersection-edge :
      (m n : GraphManager W G) (spec : IntersectionSpec W) (u v : String)
      → load_intersection m spec ≡ some n
      → g.edge n.graph u v ≡ g.edge m.graph u v
  unfolding load_intersection
  load_intersection-edge m n spec u v h =
      let (id, _, e) = bind_some spec.id _ n h in
      subst (λ (n : GraphManager W G). g.edge n.graph u v ≡ g.edge m.graph u v)
        (some-injective _ n e) (edge-add_node m.graph id u v _)

  load_intersections-edge :
      (specs : List (IntersectionSpec W)) (m n : GraphManager W G) (u v : String)
      → load_intersections m specs ≡ some n
      → g.edge n.graph u v ≡ g.edge m.graph u v
  unfolding load_intersections
  load_intersections-edge [] m n u v h = cc
  load_intersections-edge (spec ∷ specs) m n u v h =
      let (m', e, h') = bind_some (load_intersection m spec) _ n h in
      load_intersections-edge specs m' n u v h' ∙ load_intersection-edge m m' spec u v e

  add_road_edges-edge :
      (h : G) (id s t : String) (road : RoadSpec W) (u v : String)
      → IsTwoWay road
      → g.edge (add_road_edges h id s t road) u v ≡ (
          if str_eq t u
          then (if str_eq s v
              then some (road_attrs (id +++ "-rev") road)
              else (if str_eq s u
                  then (if str_eq t v then some (road_attrs id road) else g.edge h u v)
                  else g.edge h u v))
          else (if str_eq s u
              then (if str_eq t v then some (road_attrs id road) else g.edge h u v)
              else g.edge h u v))
  unfolding add_road_edges
  add_road_edges-edge h id s t road u v two = rw (
    two,
    edge-add_edge (g.add_edge h s t (road_attrs id road)) t s u v _,
    edge-add_edge h s t u v (road_attrs id road),
  )

  add_road_edges-IsSymmetric :
      (h : G) (id s t : String) (road : RoadSpec W)
      → IsTwoWay road
      → IsSymmetric h
      → IsSymmetric (add_road_edges h id s t road)
  unfolding edge_distance edge_speed road_attrs
  add_road_edges-IsSymmetric h id s t road two k u v =
      rw (add_road_edges-edge h id s t road u v two, add_road_edges-edge h id s t road v u two)
        (ground (arith, k u v))

  load_road-IsSymmetric :
      (m n : GraphManager W G) (road : RoadSpec W)
      → IsTwoWay road
      → load_road m road ≡ some n
      → IsSymmetric m.graph
      → IsSymmetric n.graph
  unfolding load_road
  load_road-IsSymmetric m n road two h k =
      let (id, _, h1) = bind_some road.id _ n h in
      let (s, _, h2) = bind_some road.source_id _ n h1 in
      let (t, _, h3) = bind_some road.target_id _ n h2 in
      subst (λ (n : GraphManager W G). IsSymmetric n.graph) (some-injective _ n h3)
        (add_road_edges-IsSymmetric m.graph id s t road two k)

  load_roads-IsSymmetric :
      (roads : List (RoadSpec W)) (m n : GraphManager W G)
      → All IsTwoWay roads
      → load_roads m roads ≡ some n
      → IsSymmetric m.graph
      → IsSymmetric n.graph
  unfolding load_roads
  load_roads-IsSymmetric [] m n two h k =
      subst (λ (n : GraphManager W G). IsSymmetric n.graph) (some-injective m n h) k
  load_roads-IsSymmetric (road ∷ roads) m n two h k =
      let (m', e, h') = bind_some (load_road m road) _ n h in
      load_roads-IsSymmetric roads m' n two.1 h' (load_road-IsSymmetric m m' road two.0 e k)

  -- If a topology loads and none of its roads is one-way, then distances and speed limits between any
  -- two intersections are the same in both directions, neighbours or not.
  pub load_topology-IsSymmetric :
      (file : Topology W) (m : GraphManager W G)
      → All IsTwoWay file.roads
      → load_topology (some file) ≡ some m
      → (u v : String)
      → (get_edge_distance m u v ≡ get_edge_distance m v u)
        × (get_edge_speed_limit m u v ≡ get_edge_speed_limit m v u)
  unfolding load_topology get_edge_distance get_edge_speed_limit
  load_topology-IsSymmetric file m two h =
      let (m', e, h') = bind_some (load_intersections empty_manager file.intersections) _ m h in
      load_roads-IsSymmetric file.roads m' m two h' λ u v.
        let no_edge = λ (a b : String).
          load_intersections-edge file.intersections empty_manager m' a b e ∙ edge-empty a b in
        rw (no_edge u v, no_edge v u) (refl, refl)
