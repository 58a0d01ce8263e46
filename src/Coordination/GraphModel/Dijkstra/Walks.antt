-- ===== src/Coordination/GraphModel/Dijkstra/Walks.antt =====
-- The walks of a network and what they cost.
use semaforo.Prelude.{◌≡◌, String, some, none, List, [], ◌∷◌, ◌++◌, Bool, true, All, if_ind, str_eq}
use semaforo.Prelude.Dict.{Dict, get}
use semaforo.Float.{Float, ◌≼◌}
use semaforo.Coordination.GraphModel.{RoadEdge, TrafficNetwork, travel_time, roads}
use semaforo.Coordination.GraphModel.Heap.{Any, All-Any}
use semaforo.Network.Graph.{or_else}

module _ {W : Type 0} ⦃f : Float W⦄ (net : TrafficNetwork W) where
  -- The road is one of those from `u`, and takes `w` seconds.
  abbrev pub Road : String → RoadEdge W → W → Type 0
  Road u e w = Any (λ x. e ≡ x) (roads net u) × (travel_time e ≡ some w)

  -- The walks from `source`, by their end and their time, which is summed along the way.
  pub data Walk (source : String) : String → W → Type 0 where
    here : Walk source source (f.ratio 0 1)
    step :
        {u : String} {c : W} (e : RoadEdge W) (w : W)
        → Walk source u c
        → Road u e w
        → Walk source e.target (f.add c w)

  -- No road takes less than no time.
  abbrev pub AllForward : Type 0
  AllForward = (u : String) (e : RoadEdge W) (w : W) → Road u e w → f.ratio 0 1 ≼ w

module _ {W : Type 0} ⦃f : Float W⦄ where
  -- The distance that is known for `v` is at most `c`.
  abbrev pub Reached : Dict W → String → W → Type 0
  Reached dist v c = (x : W) × (get dist v ≡ some x) × (x ≼ c)

module _ {W : Type 0} ⦃f : Float W⦄ (net : TrafficNetwork W) (source : String) where
  -- The walks from `source`, by their end, their time and the names of the nodes on the way.
  pub data Route : String → W → List String → Type 0 where
    single : Route source (f.ratio 0 1) (source ∷ [])
    extend :
        {u : String} {c : W} {p : List String} (e : RoadEdge W) (w : W)
        → Route u c p
        → Road net u e w
        → Route e.target (f.add c w) (p ++ e.target ∷ [])

module _ {W : Type 0} ⦃f : Float W⦄ where
  -- The road takes no less than no time, or for ever.
  abbrev pub is_forward : RoadEdge W → Bool
  is_forward e = elim (travel_time e) [ none ↦ true | some w ↦ f.le (f.ratio 0 1) w ]

  is_forward_le :
      (e : RoadEdge W) (w : W) → travel_time e ≡ some w → is_forward e ≡ true → f.ratio 0 1 ≼ w
  is_forward_le e w t h = rw (is_forward, t) at h

  get-All :
      (P : RoadEdge W → Type 0) (edges : Dict (List (RoadEdge W))) (u : String)
      → All (λ e. All P e.1) edges
      → All P (or_else (get edges u) [])
  unfolding get
  get-All P [] u h = tt
  get-All P ((v, es) ∷ edges) u h =
      if_ind (λ o. All P (or_else o [])) (str_eq v u) {x = some es} {y = get edges u} h.0
        (get-All P edges u h.1)

  pub forward_roads :
      (net : TrafficNetwork W)
      → All (λ e. All (λ r. is_forward r ≡ true) e.1) net.edges
      → AllForward net
  forward_roads net h u e w road =
      All-Any (λ r. is_forward r ≡ true) (λ x. e ≡ x) (roads net u)
        (get-All (λ r. is_forward r ≡ true) net.edges u h) road.0
        (λ x k m. is_forward_le e w road.1 (rw m k))
