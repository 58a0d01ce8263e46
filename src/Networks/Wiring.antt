-- ===== src/Networks/Wiring.antt =====
-- The edges of a generated network run between its nodes.
use semaforo.Prelude.{
  ℕ, zero, suc, ◌+◌, ◌≤◌, ◌<◌, ◌≡◌, refl, ap, String, List, [], ◌∷◌, ◌++◌, inl, inr, All,
  All-append, if_ind_eq, Bool-cases, ltb, ltb→lt, pos, sub_ℕ, arith,
}
use semaforo.Prelude.Text.{◌+++◌, show_int, digits_before}
use semaforo.Float.{Float}
use semaforo.Coordination.GraphModel.Heap.{Any}
use semaforo.Networks.{
  Node, Edge, crossing, speed_ms, single_nodes, single_edges, generate_single_intersection,
  corridor_nodes_from, corridor_nodes, corridor_links, corridor_edges_from, corridor_edges,
  generate_corridor,
}

module _ {W : Type 0} where
  abbrev pub Has : List (Node W) → String → Type 0
  Has nodes id = Any (λ n. n.id ≡ id) nodes

  -- Both ends of the edge are nodes.
  abbrev pub IsWired : List (Node W) → Edge W → Type 0
  IsWired nodes e = Has nodes e.source × Has nodes e.target

  Any-left : (P : Node W → Type 0) (xs ys : List (Node W)) → Any P xs → Any P (xs ++ ys)
  Any-left P [] ys a = elim a [ ]
  Any-left P (x ∷ xs) ys (inl p) = inl p
  Any-left P (x ∷ xs) ys (inr a) = inr (Any-left P xs ys a)

  Any-right : (P : Node W → Type 0) (xs ys : List (Node W)) → Any P ys → Any P (xs ++ ys)
  Any-right P [] ys a = a
  Any-right P (x ∷ xs) ys a = inr (Any-right P xs ys a)

module _ {W : Type 0} ⦃f : Float W⦄ (spacing_m approach_length : W) where
  -- The three nodes of an intersection.
  abbrev HasCrossing : List (Node W) → ℕ → Type 0
  HasCrossing nodes j =
      Has nodes (crossing (pos j))
      × Has nodes (crossing (pos j) +++ "_north")
      × Has nodes (crossing (pos j) +++ "_south")

  nodes_from-HasCrossing :
      (i k j : ℕ)
      → i ≤ j
      → j < i + k
      → HasCrossing (corridor_nodes_from spacing_m approach_length i k) j
  unfolding corridor_nodes_from
  nodes_from-HasCrossing i zero j h l = let absurd : ⊥ = omega (arith, h, l) in elim absurd [ ]
  nodes_from-HasCrossing i (suc k) j h l = elim (Bool-cases (ltb i j)) [
    | inl t ↦
        let (a, b, c) = nodes_from-HasCrossing (suc i) k j (ltb→lt i j t) (omega (arith, l)) in
        (inr (inr (inr a)), inr (inr (inr b)), inr (inr (inr c)))
    | inr t ↦
        let same : i ≡ j = ground (arith, h) in
        (
          inl (ap (λ m. crossing (pos m)) same),
          inr (inl (ap (λ m. crossing (pos m) +++ "_north") same)),
          inr (inr (inl (ap (λ m. crossing (pos m) +++ "_south") same))),
        )
  ]

  corridor_nodes-HasCrossing :
      (n j : ℕ) → j < n → HasCrossing (corridor_nodes n spacing_m approach_length) j
  unfolding corridor_nodes
  corridor_nodes-HasCrossing n j h =
      let (a, b, c) = nodes_from-HasCrossing 0 n j (omega arith) (omega (arith, h)) in
      (inr (Any-left _ _ _ a), inr (Any-left _ _ _ b), inr (Any-left _ _ _ c))

  east_entry : (n : ℕ) → Has (corridor_nodes n spacing_m approach_length) "east_entry"
  unfolding corridor_nodes
  east_entry n = inr (Any-right _ (corridor_nodes_from spacing_m approach_length 0 n) _ (inl refl))

  west_entry : (n : ℕ) → Has (corridor_nodes n spacing_m approach_length) "west_entry"
  unfolding corridor_nodes
  west_entry n = inl refl

  links-IsWired :
      (num_lanes n i : ℕ) (speed : W)
      → i < n
      → All
          (IsWired (corridor_nodes n spacing_m approach_length))
          (corridor_links num_lanes speed n i)
  unfolding corridor_links
  links-IsWired num_lanes n i speed h =
      let here = (corridor_nodes-HasCrossing n i h).0 in
      if_ind_eq {A = List (Edge W)} (All (IsWired (corridor_nodes n spacing_m approach_length)))
        (ltb (i + 1) n)
        (λ t.
          let next = (corridor_nodes-HasCrossing n (i + 1) (ltb→lt (i + 1) n t)).0 in
          ((here, next), ((next, here), tt)))
        (λ t. tt)

  edges_from-IsWired :
      (num_lanes n i k : ℕ) (speed : W)
      → i + k ≡ n
      → All
          (IsWired (corridor_nodes n spacing_m approach_length))
          (corridor_edges_from num_lanes speed n i k)
  unfolding corridor_edges_from
  edges_from-IsWired num_lanes n i zero speed h = tt
  edges_from-IsWired num_lanes n i (suc k) speed h =
      let (here, north, south) = corridor_nodes-HasCrossing n i (omega (arith, h)) in
      (
        (north, here),
        (
          (here, north),
          (
            (south, here),
            (
              (here, south),
              All-append (IsWired (corridor_nodes n spacing_m approach_length))
                  (corridor_links num_lanes speed n i)
                  (corridor_edges_from num_lanes speed n (suc i) k)
                  (links-IsWired num_lanes n i speed (omega (arith, h)))
                  (edges_from-IsWired num_lanes n (suc i) k speed (omega (arith, h))),
            ),
          ),
        ),
      )

  first_crossing : (n : ℕ) → Has (corridor_nodes (suc n) spacing_m approach_length) "c0"
  unfolding show_int digits_before
  first_crossing n = (corridor_nodes-HasCrossing (suc n) 0 (omega arith)).0

  last_crossing :
      (n : ℕ) → Has (corridor_nodes (suc n) spacing_m approach_length) (crossing (sub_ℕ (suc n) 1))
  last_crossing n =
      let at : sub_ℕ (suc n) 1 ≡ pos n = ground arith in
      rw at (corridor_nodes-HasCrossing (suc n) n (omega arith)).0

module _ {W : Type 0} ⦃f : Float W⦄ where
  -- In the network of a single intersection, and in a corridor of any length from one intersection
  -- on, each edge runs from a node of the network to a node of it.
  pub generate_corridor-IsWired :
      (round2 : W → W) (n num_lanes : ℕ) (spacing_m speed_kmh approach_length : W)
      → let single = generate_single_intersection round2 num_lanes approach_length speed_kmh in
        let corridor =
          generate_corridor round2 (suc n) spacing_m num_lanes speed_kmh approach_length in
        All (IsWired single.0) single.1 × All (IsWired corridor.0) corridor.1
  unfolding generate_single_intersection single_nodes single_edges generate_corridor corridor_edges
  generate_corridor-IsWired round2 n num_lanes spacing_m speed_kmh approach_length =
      let N = corridor_nodes (suc n) spacing_m approach_length in
      let first = first_crossing spacing_m approach_length n in
      let last = last_crossing spacing_m approach_length n in
      let west = west_entry spacing_m approach_length (suc n) in
      let east = east_entry spacing_m approach_length (suc n) in
      (
        (
          (inr (inl refl), inl refl),
          (
            (inl refl, inr (inl refl)),
            (
              (inr (inr (inl refl)), inl refl),
              (
                (inl refl, inr (inr (inl refl))),
                (
                  (inr (inr (inr (inl refl))), inl refl),
                  (
                    (inl refl, inr (inr (inr (inl refl)))),
                    (
                      (inr (inr (inr (inr (inl refl)))), inl refl),
                      ((inl refl, inr (inr (inr (inr (inl refl))))), tt),
                    ),
                  ),
                ),
              ),
            ),
          ),
        ),
        (
          (west, first),
          (
            (first, west),
            All-append (IsWired N)
                (corridor_edges_from num_lanes (speed_ms round2 speed_kmh) (suc n) 0 (suc n)) _
                (edges_from-IsWired spacing_m approach_length num_lanes (suc n) 0 (suc n)
                  (speed_ms round2 speed_kmh) (omega arith))
                ((last, east), ((east, last), tt)),
          ),
        ),
      )
