-- ===== src/Coordination/GraphModel/StoredLaws.antt =====
-- What `load` makes of the two lists that `to_dict` writes.
use mathlib.Core.Option.{some-injective}
use semaforo.Prelude.{
  is_some, ◌≡◌, refl, String, none, some, List, [], ◌∷◌, inl, inr, Bool-cases, Option-cases, arith,
  str_eq,
}
use semaforo.Prelude.Dict.{Dict, get, put, get-put}
use semaforo.Float.{Float}
use semaforo.Coordination.GraphModel.{Value, IntersectionNode, TrafficNetwork, empty_network}
use semaforo.Coordination.GraphModel.Stored.{
  Item, node_asdict, to_dict, keywords, call_add_intersection, load_nodes, load,
}

module _ {W : Type 0} where
  -- The keywords are those of the two dictionaries.
  keywords-get :
      (fields meta kwargs : Dict (Value W)) (k : String)
      → keywords fields meta ≡ some kwargs
      → get fields k ≡ none
      → get meta k ≡ none
      → get kwargs k ≡ none
  unfolding keywords get
  keywords-get fields [] kwargs k e h m = rw (← some-injective fields kwargs e) h
  keywords-get fields ((j, v) ∷ meta) kwargs k e h m = elim (Bool-cases (is_some (get fields j))) [
    | inl t ↦
        let absurd : none ≡ some kwargs = rw t at e in
        let impossible : ⊥ = ground arith in elim impossible [ ]
    | inr t ↦ elim (Bool-cases (str_eq j k)) [
      | inl q ↦
          let absurd : some v ≡ none = rw q at m in
          let impossible : ⊥ = ground arith in elim impossible [ ]
      | inr q ↦
          keywords-get (put fields j v) meta kwargs k (rw t at e) (rw (get-put fields j k v, q) h)
            (rw q at m)
    ]
  ]

module _ {W : Type 0} ⦃f : Float W⦄ where
  call_add_intersection_missing :
      (net : TrafficNetwork W) (kwargs : Dict (Value W))
      → get kwargs "node_id" ≡ none
      → call_add_intersection net kwargs ≡ none
  unfolding call_add_intersection
  call_add_intersection_missing net kwargs h = rw (call_add_intersection, h) refl

  load_nodes-node_asdict :
      (net : TrafficNetwork W) (n : IntersectionNode W) (xs : List (Item W))
      → get n.metadata "node_id" ≡ none
      → load_nodes net (node_asdict n ∷ xs) ≡ none
  unfolding load_nodes get
  load_nodes-node_asdict net n xs h =
      elim (Option-cases (keywords (node_asdict n).fields n.metadata)) [
        | inl e ↦ rw (load_nodes, e) refl
        | inr (kwargs, e) ↦
            rw
              (
                load_nodes,
                e,
                call_add_intersection_missing net kwargs
                    (keywords-get _ n.metadata kwargs "node_id" e refl h),
              )
              refl
      ]

  -- A network with a node cannot be loaded back from what `to_dict` makes of it: the node's name is
  -- stored as `id`, and `add_intersection` asks for `node_id`. The condition is that the metadata of
  -- the first node has no entry `node_id`, which `add_intersection` cannot give it.
  pub load-to_dict :
      (net : TrafficNetwork W) (id : String) (n : IntersectionNode W)
      (nodes : Dict (IntersectionNode W))
      → net.nodes ≡ (id, n) ∷ nodes
      → get n.metadata "node_id" ≡ none
      → load (to_dict net) ≡ none
  unfolding load to_dict
  load-to_dict net id n nodes e h =
      rw (load, to_dict, e, load_nodes-node_asdict empty_network n _ h) refl
