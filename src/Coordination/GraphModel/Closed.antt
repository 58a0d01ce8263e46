-- ===== src/Coordination/GraphModel/Closed.antt =====
-- The references of the graph: the two dictionaries have the same keys, and the ends of a road are nodes.
use mathlib.Core.Path.{subst}
use mathlib.Core.Option.{some-injective}
use mathlib.Core.List.{map-append}
use semaforo.Prelude.{
  is_some, ◌≡◌, refl, String, none, some, List, [], ◌∷◌, ◌++◌, inl, inr, if◌then◌else◌, true, All,
  All-append, Bool-cases, Option-cases, arith, str_eq, eq_iff,
}
use semaforo.Prelude.Dict.{Dict, get, put, get-put}
use semaforo.Network.Graph.{or_else}
use semaforo.Coordination.GraphModel.{
  Value, IntersectionNode, RoadEdge, TrafficNetwork, empty_network, add_intersection, set_default,
  append_edge, add_road, neighbors, roads,
}
use semaforo.Coordination.GraphModel.Heap.{All-mono}

module _ {W : Type 0} where
  -- `add_road` has found both ends of the road.
  abbrev pub HasEnds : Dict (IntersectionNode W) → String → RoadEdge W → Type 0
  HasEnds nodes u e =
      (e.source ≡ u) × (is_some (get nodes e.source) ≡ true) × (is_some (get nodes e.target) ≡ true)

  pub record IsClosed (net : TrafficNetwork W) : Type 0 where
    pub same_keys : (u : String) → is_some (get net.edges u) ≡ is_some (get net.nodes u)
    pub ends :
        (u : String) (es : List (RoadEdge W))
        → get net.edges u ≡ some es
        → All (HasEnds net.nodes u) es

  no_roads : (u : String) (es : List (RoadEdge W)) → get [] u ≡ some es → ⊥
  unfolding get
  no_roads u es e = ground arith

  pub empty_network-IsClosed : IsClosed (empty_network {W = W})
  unfolding get
  empty_network-IsClosed = record {
    same_keys = λ u. refl;
    ends = λ u es e. elim (no_roads u es e) [ ];
  }

  get-set_default :
      (edges : Dict (List (RoadEdge W))) (id u : String)
      → get (set_default edges id) u
        ≡ (if str_eq id u then some (or_else (get edges u) []) else get edges u)
  unfolding set_default
  get-set_default edges id u = elim (Option-cases (get edges id)) [
    | inl e ↦ elim (Bool-cases (str_eq id u)) [
      | inl k ↦
          let absent : get edges u ≡ none = rw (← (eq_iff id u).0 k) e in
          rw (set_default, e, get-put edges id u [], k, absent) refl
      | inr k ↦ rw (set_default, e, get-put edges id u [], k) refl
    ]
    | inr (es, e) ↦ elim (Bool-cases (str_eq id u)) [
      | inl k ↦
          let present : get edges u ≡ some es = rw (← (eq_iff id u).0 k) e in
          rw (set_default, e, k, present) refl
      | inr k ↦ rw (set_default, e, k) refl
    ]
  ]

  is_some-put :
      (nodes : Dict (IntersectionNode W)) (id u : String) (n : IntersectionNode W)
      → is_some (get nodes u) ≡ true
      → is_some (get (put nodes id n) u) ≡ true
  is_some-put nodes id u n h = elim (Bool-cases (str_eq id u)) [
    | inl k ↦ rw (get-put nodes id u n, k) refl
    | inr k ↦ rw (get-put nodes id u n, k) h
  ]

  HasEnds-put :
      (nodes : Dict (IntersectionNode W)) (id u : String) (n : IntersectionNode W)
      (es : List (RoadEdge W))
      → All (HasEnds nodes u) es
      → All (HasEnds (put nodes id n) u) es
  HasEnds-put nodes id u n es =
      All-mono (HasEnds nodes u) (HasEnds (put nodes id n) u) es
        (λ e h. (h.0, is_some-put nodes id e.source n h.1, is_some-put nodes id e.target n h.2))

  pub roads-HasEnds :
      (net : TrafficNetwork W) (u : String) → IsClosed net → All (HasEnds net.nodes u) (roads net u)
  roads-HasEnds net u h = elim (Option-cases (get net.edges u)) [
    | inl e ↦ rw e tt
    | inr (es, e) ↦ rw e (h.ends u es e)
  ]

  -- Adding an intersection keeps the references, also when its name is there already.
  pub add_intersection-IsClosed :
      (net : TrafficNetwork W) (id : String) (lat lon : W) (metadata : Dict (Value W))
      → IsClosed net
      → IsClosed (add_intersection net id lat lon metadata)
  unfolding add_intersection
  add_intersection-IsClosed net id lat lon metadata h =
      let node : IntersectionNode W = record {
        id = id;
        lat = lat;
        lon = lon;
        metadata = metadata;
      } in
      record {
        same_keys = λ u. elim (Bool-cases (str_eq id u)) [
          | inl k ↦ rw (get-set_default net.edges id u, get-put net.nodes id u node, k) refl
          | inr k ↦
              rw (get-set_default net.edges id u, get-put net.nodes id u node, k) (h.same_keys u)
        ];
        ends = λ u es e. HasEnds-put net.nodes id u node es (elim (Bool-cases (str_eq id u)) [
          | inl k ↦
              subst (All (HasEnds net.nodes u))
                (some-injective (roads net u) es (rw (get-set_default net.edges id u, k) at e))
                (roads-HasEnds net u h)
          | inr k ↦ h.ends u es (rw (get-set_default net.edges id u, k) at e)
        ]);
      }

  add_road_append :
      (net : TrafficNetwork W) (e : RoadEdge W) (es : List (RoadEdge W))
      → is_some (get net.nodes e.source) ≡ true
      → is_some (get net.nodes e.target) ≡ true
      → get net.edges e.source ≡ some es
      → add_road net e ≡ some (record net { edges = put net.edges e.source (es ++ e ∷ []) })
  unfolding add_road append_edge
  add_road_append net e es s t k = elim (Option-cases (get net.nodes e.source)) [
    | inl a ↦ let absurd : ⊥ = ground (arith, rw a at s) in elim absurd [ ]
    | inr (a, p) ↦ elim (Option-cases (get net.nodes e.target)) [
      | inl b ↦ let absurd : ⊥ = ground (arith, rw b at t) in elim absurd [ ]
      | inr (b, q) ↦ rw (add_road, p, q, append_edge, k) refl
    ]
  ]

  append-IsClosed :
      (net : TrafficNetwork W) (e : RoadEdge W) (es : List (RoadEdge W))
      → IsClosed net
      → is_some (get net.nodes e.source) ≡ true
      → is_some (get net.nodes e.target) ≡ true
      → get net.edges e.source ≡ some es
      → IsClosed (record net { edges = put net.edges e.source (es ++ e ∷ []) })
  append-IsClosed net e es h s t k = record {
    same_keys = λ u. elim (Bool-cases (str_eq e.source u)) [
      | inl q ↦
          let known : is_some (get net.nodes u) ≡ true = rw (← (eq_iff e.source u).0 q) s in
          rw (get-put net.edges e.source u (es ++ e ∷ []), q, known) refl
      | inr q ↦ rw (get-put net.edges e.source u (es ++ e ∷ []), q) (h.same_keys u)
    ];
    ends = λ u xs g. elim (Bool-cases (str_eq e.source u)) [
      | inl q ↦
          let same =
            some-injective _ _ (rw (get-put net.edges e.source u (es ++ e ∷ []), q) at g) in
          let here : e.source ≡ u = (eq_iff e.source u).0 q in
          subst (All (HasEnds net.nodes u)) same (
            All-append (HasEnds net.nodes u) es (e ∷ []) (h.ends u es (rw (← here) k))
              ((here, s, t), tt))
      | inr q ↦ h.ends u xs (rw (get-put net.edges e.source u (es ++ e ∷ []), q) at g)
    ];
  }

  edges_known :
      (net : TrafficNetwork W) (u : String)
      → IsClosed net
      → is_some (get net.nodes u) ≡ true
      → (es : List (RoadEdge W)) × (get net.edges u ≡ some es)
  edges_known net u h s = elim (Option-cases (get net.edges u)) [
    | inl a ↦
        let absurd : ⊥ =
          ground (arith, s, subst (λ o. is_some o ≡ is_some (get net.nodes u)) a (h.same_keys u)) in
        elim absurd [ ]
    | inr k ↦ k
  ]

  -- Between two nodes of a network whose references are in order, `add_road` succeeds, keeps them in
  -- order, and makes the road's target the last neighbour of its source.
  pub add_road-IsClosed :
      (net : TrafficNetwork W) (e : RoadEdge W)
      → IsClosed net
      → is_some (get net.nodes e.source) ≡ true
      → is_some (get net.nodes e.target) ≡ true
      → (net' : TrafficNetwork W) × (add_road net e ≡ some net')
        × IsClosed net'
        × (neighbors net' e.source ≡ neighbors net e.source ++ e.target ∷ [])
  unfolding neighbors
  add_road-IsClosed net e h s t =
      let (es, k) = edges_known net e.source h s in
      (
        record net { edges = put net.edges e.source (es ++ e ∷ []) },
        add_road_append net e es s t k,
        append-IsClosed net e es h s t k,
        rw
            (
              neighbors,
              get-put net.edges e.source e.source (es ++ e ∷ []),
              (eq_iff e.source e.source).1 refl,
              k,
            )
            (map-append (λ e. e.target) es (e ∷ [])),
      )
