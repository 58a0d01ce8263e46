-- ===== src/Network/Graph/Lookup.antt =====
-- What the loader of network/coordinator/src/graph_manager.py finds in a topology file.
use mathlib.Core.Option.{some-injective}
use mathlib.Core.Path.{subst}
use semaforo.Prelude.{
  ◌≡◌, refl, sym, String, Option, none, some, List, [], ◌∷◌, str_eq, if◌then◌else◌, All, ◌∙◌, ap,
  Option-cases, inl, inr,
}
use semaforo.Prelude.Dict.{Dict, get, put, get-put}
use semaforo.Float.{Float}
use semaforo.Network.DiGraph.{DiGraph}
use semaforo.Network.Graph.{
  IntersectionSpec, RoadSpec, Topology, GraphManager, empty_manager, load_intersection, load_road,
  load_intersections, load_roads, load_topology, get_intersection, ◌>>=◌,
}
use semaforo.Network.Graph.Roads.{bind_some}
use semaforo.Network.Graph.Presence.{IsSome}

-- An object, if the key is its name.
abbrev pub or_this {ℓ} : {V : Type ℓ} → Option String → String → V → Option V → Option V
or_this none k v old = old
or_this (some id) k v old = if str_eq id k then some v else old

-- The entry of a key in a list of JSON objects that name themselves: the last one counts.
abbrev pub last_of {ℓ} : {V : Type ℓ} → (V → Option String) → List V → String → Option V → Option V
last_of id_of [] k old = old
last_of id_of (v ∷ vs) k old = last_of id_of vs k (or_this (id_of v) k v old)

get-put_named {ℓ} :
    {V : Type ℓ} (d : Dict V) (o : Option String) (id k : String) (v : V)
    → o ≡ some id
    → get (put d id v) k ≡ or_this o k v (get d k)
get-put_named d o id k v h = rw h (get-put d id k v)

IsSome-intro {ℓ} : {A : Type ℓ} (o : Option A) {a : A} → o ≡ some a → IsSome o
IsSome-intro none h = cc
IsSome-intro (some b) h = tt

bind_loads {ℓ κ} :
    {A : Type ℓ} {B : Type κ} (o : Option A) (k : A → Option B)
    → IsSome o
    → ((a : A) → (b : B) × (k a ≡ some b))
    → (b : B) × ((o >>= k) ≡ some b)
bind_loads none k h e = elim h [ ]
bind_loads (some a) k h e = e a

module _ {W : Type 0} where
  -- No member that the loader needs is missing.
  abbrev pub IsComplete : Topology W → Type 0
  IsComplete file =
      All (λ (spec : IntersectionSpec W). IsSome spec.id) file.intersections
      × All (λ (road : RoadSpec W). IsSome road.id × IsSome road.source_id × IsSome road.target_id)
          file.roads

module _ {W G : Type 0} ⦃f : Float W⦄ ⦃g : DiGraph W G⦄ where
  load_intersection-read :
      (spec : IntersectionSpec W) (m n : GraphManager W G) (k : String)
      → load_intersection m spec ≡ some n
      → IsSome spec.id
        × (n.roads ≡ m.roads)
        × (get n.intersections k ≡ or_this spec.id k spec (get m.intersections k))
  unfolding load_intersection
  load_intersection-read spec m n k h =
      let (id, i, e) = bind_some spec.id _ n h in
      subst
        (λ (n : GraphManager W G).
          IsSome spec.id
          × (n.roads ≡ m.roads)
          × (get n.intersections k ≡ or_this spec.id k spec (get m.intersections k)))
        (some-injective _ n e)
        (IsSome-intro spec.id i, refl, get-put_named m.intersections spec.id id k spec i)

  load_intersections-read :
      (specs : List (IntersectionSpec W)) (m n : GraphManager W G) (k : String)
      → load_intersections m specs ≡ some n
      → All (λ (spec : IntersectionSpec W). IsSome spec.id) specs
        × (n.roads ≡ m.roads)
        × (get n.intersections k ≡ last_of (λ v. v.id) specs k (get m.intersections k))
  unfolding load_intersections
  load_intersections-read [] m n k h =
      subst
        (λ (n : GraphManager W G).
          Unit × (n.roads ≡ m.roads) × (get n.intersections k ≡ get m.intersections k))
        (some-injective m n h) (tt, refl, refl)
  load_intersections-read (spec ∷ specs) m n k h =
      let (m', e, h') = bind_some (load_intersection m spec) _ n h in
      let (named, same, this) = load_intersection-read spec m m' k e in
      let (all, roads, here) = load_intersections-read specs m' n k h' in
      ((named, all), roads ∙ same, here ∙ ap (last_of (λ v. v.id) specs k) this)

  load_road-read :
      (road : RoadSpec W) (m n : GraphManager W G) (k : String)
      → load_road m road ≡ some n
      → (IsSome road.id × IsSome road.source_id × IsSome road.target_id)
        × (n.intersections ≡ m.intersections)
        × (get n.roads k ≡ or_this road.id k road (get m.roads k))
  unfolding load_road
  load_road-read road m n k h =
      let (id, i, h1) = bind_some road.id _ n h in
      let (s, es, h2) = bind_some road.source_id _ n h1 in
      let (t, et, e) = bind_some road.target_id _ n h2 in
      subst
        (λ (n : GraphManager W G).
          (IsSome road.id × IsSome road.source_id × IsSome road.target_id)
          × (n.intersections ≡ m.intersections)
          × (get n.roads k ≡ or_this road.id k road (get m.roads k)))
        (some-injective _ n e)
        (
          (IsSome-intro road.id i, IsSome-intro road.source_id es, IsSome-intro road.target_id et),
          refl,
          get-put_named m.roads road.id id k road i,
        )

  load_roads-read :
      (roads : List (RoadSpec W)) (m n : GraphManager W G) (k : String)
      → load_roads m roads ≡ some n
      → All
          (λ (road : RoadSpec W). IsSome road.id × IsSome road.source_id × IsSome road.target_id)
          roads
        × (n.intersections ≡ m.intersections)
        × (get n.roads k ≡ last_of (λ v. v.id) roads k (get m.roads k))
  unfolding load_roads
  load_roads-read [] m n k h =
      subst
        (λ (n : GraphManager W G).
          Unit × (n.intersections ≡ m.intersections) × (get n.roads k ≡ get m.roads k))
        (some-injective m n h) (tt, refl, refl)
  load_roads-read (road ∷ roads) m n k h =
      let (m', e, h') = bind_some (load_road m road) _ n h in
      let (named, same, this) = load_road-read road m m' k e in
      let (all, kept, here) = load_roads-read roads m' n k h' in
      ((named, all), kept ∙ same, here ∙ ap (last_of (λ v. v.id) roads k) this)

  load_intersection-loads :
      (spec : IntersectionSpec W) (m : GraphManager W G)
      → IsSome spec.id
      → (n : GraphManager W G) × (load_intersection m spec ≡ some n)
  unfolding load_intersection
  load_intersection-loads spec m h = bind_loads spec.id _ h λ id. (_, refl)

  load_intersections-loads :
      (specs : List (IntersectionSpec W)) (m : GraphManager W G)
      → All (λ (spec : IntersectionSpec W). IsSome spec.id) specs
      → (n : GraphManager W G) × (load_intersections m specs ≡ some n)
  unfolding load_intersections
  load_intersections-loads [] m h = (m, refl)
  load_intersections-loads (spec ∷ specs) m (here, there) =
      let (m', e) = load_intersection-loads spec m here in
      let (n, done) = load_intersections-loads specs m' there in (n, rw e done)

  load_road-loads :
      (road : RoadSpec W) (m : GraphManager W G)
      → IsSome road.id × IsSome road.source_id × IsSome road.target_id
      → (n : GraphManager W G) × (load_road m road ≡ some n)
  unfolding load_road
  load_road-loads road m (named, from, to) =
      bind_loads road.id _ named
        λ id. bind_loads road.source_id _ from λ s. bind_loads road.target_id _ to λ t. (_, refl)

  load_roads-loads :
      (roads : List (RoadSpec W)) (m : GraphManager W G)
      → All
          (λ (road : RoadSpec W). IsSome road.id × IsSome road.source_id × IsSome road.target_id)
          roads
      → (n : GraphManager W G) × (load_roads m roads ≡ some n)
  unfolding load_roads
  load_roads-loads [] m h = (m, refl)
  load_roads-loads (road ∷ roads) m (here, there) =
      let (m', e) = load_road-loads road m here in
      let (n, done) = load_roads-loads roads m' there in (n, rw e done)

  -- What is loaded from a file, or that nothing is.
  abbrev pub IsReadFrom : Topology W → String → Option (GraphManager W G) → Type 0
  IsReadFrom file k none = ¬ IsComplete file
  IsReadFrom file k (some m) =
      IsComplete file
      × (get_intersection m k ≡ last_of (λ v. v.id) file.intersections k none)
      × (get m.roads k ≡ last_of (λ v. v.id) file.roads k none)

  load_topology-loads :
      (file : Topology W)
      → IsComplete file
      → (n : GraphManager W G) × (load_topology {G = G} (some file) ≡ some n)
  unfolding load_topology
  load_topology-loads file (specs, roads) =
      let (m, e) = load_intersections-loads file.intersections empty_manager specs in
      let (n, done) = load_roads-loads file.roads m roads in (n, rw e done)

  load_topology-read :
      (file : Topology W) (n : GraphManager W G) (k : String)
      → load_topology (some file) ≡ some n
      → IsReadFrom file k (some n)
  unfolding load_topology get
  load_topology-read file n k h =
      let (m, e, h') = bind_some (load_intersections empty_manager file.intersections) _ n h in
      let (specs, no_roads, first) =
        load_intersections-read file.intersections empty_manager m k e in
      let (roads, same, second) = load_roads-read file.roads m n k h' in
      (
        (specs, roads),
        ap (λ d. get d k) same ∙ first,
        second ∙ ap (λ d. last_of (λ v. v.id) file.roads k (get d k)) no_roads,
      )

module _ {W : Type 0} (G : Type 0) ⦃f : Float W⦄ ⦃g : DiGraph W G⦄ where
  -- A file loads if and only if every intersection has an id and every road an id, a source and a
  -- target; the intersection and the road that are then kept under an id are the last ones of the file
  -- with this id, and none where the file has none.
  pub load_topology-IsReadFrom :
      (file : Topology W) (k : String) → IsReadFrom file k (load_topology {G = G} (some file))
  load_topology-IsReadFrom file k = elim (Option-cases (load_topology {G = G} (some file))) [
    | inl e ↦ rw e λ whole.
        let (n, done) = load_topology-loads {G = G} file whole in
        let absurd : ◌≡◌ {A = Option (GraphManager W G)} none (some n) = sym e ∙ done in cc
    | inr (n, e) ↦ rw e (load_topology-read file n k e)
  ]
