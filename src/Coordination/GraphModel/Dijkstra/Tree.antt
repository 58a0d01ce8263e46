-- ===== src/Coordination/GraphModel/Dijkstra/Tree.antt =====
-- The tree of predecessors: which nodes can no longer change, and the chains that lead to the others.
use mathlib.Core.Path.{subst}
use mathlib.Core.Option.{some-injective}
use semaforo.Prelude.{
  ◌≡◌, refl, ℕ, suc, ◌≤◌, String, some, List, [], ◌∷◌, ◌++◌, ◌⊎◌, inl, inr, true, false, length,
  length-append, All, Bool-cases, Option-cases, arith, str_eq, eq_iff,
}
use semaforo.Prelude.Dict.{Dict, get, put, get-put}
use semaforo.Float.{Float, IsOrdered, ◌≼◌, ◌≺◌}
use semaforo.Float.Order.{le_of_lt, lt_of_lt_of_le, le-add}
use semaforo.Coordination.GraphModel.{RoadEdge, TrafficNetwork, travel_time, roads}
use semaforo.Coordination.GraphModel.Heap.{All-mono, Any}
use semaforo.Coordination.GraphModel.Dijkstra.{Search, improves, update, relax, relax_all}
use semaforo.Coordination.GraphModel.Dijkstra.Walks.{Road, Reached, AllForward}
use semaforo.Coordination.GraphModel.Dijkstra.Updates.{
  update-Reached, relax_skip, relax_keep, relax-update,
}
use semaforo.Coordination.GraphModel.Dijkstra.Chains.{Chain, link, Chain-put}

module _ {W : Type 0} ⦃f : Float W⦄ where
  -- The entry is the distance that is known for its node, or has been undercut.
  abbrev pub Entry : Dict W → W × String → Type 0
  Entry dist e = (x : W) × (get dist e.1 ≡ some x) × ((e.0 ≡ x) ⊎ (x ≺ e.0))

module _ {W : Type 0} ⦃f : Float W⦄ (net : TrafficNetwork W) (source : String) where
  -- A chain to `v`, of at most `n` nodes.
  abbrev pub Chained : (String → Type 0) → Dict String → String → W → ℕ → Type 0
  Chained P prev v x n = (p : List String) × Chain net source P prev v x p × (length p ≤ n)

  -- The nodes with `P` are settled: they are no further than `b`, the queue is no nearer.
  pub record Tree (P : String → Type 0) (b : W) (n : ℕ) (s : Search W) : Type 0 where
    pub below : All (λ e. b ≼ e.0) s.pq
    pub fixed : (v : String) → P v → Reached s.dist v b
    pub exact : All (Entry s.dist) s.pq
    pub tree : (v : String) (x : W) → get s.dist v ≡ some x → Chained P s.prev v x (suc n)

  -- The node in hand: it is settled at `d`.
  pub record Hand (P : String → Type 0) (d : W) (n : ℕ) (u : String) (s : Search W) : Type 0 where
    pub settled : P u
    pub chain : Chained P s.prev u d n
    pub tree : Tree P d n s

module _ {W : Type 0} ⦃f : Float W⦄ (laws : IsOrdered W) (net : TrafficNetwork W)
    (source : String) where
  open laws use {le_refl, le_trans}

  improves-same :
      (alt : W) (t v : String) (x : W) (dist : Dict W)
      → improves alt (get dist t) ≡ true
      → str_eq t v ≡ true
      → get dist v ≡ some x
      → alt ≺ x
  improves-same alt t v x dist i e g =
      subst (λ o. improves alt o ≡ true) g
        (subst (λ t. improves alt (get dist t) ≡ true) ((eq_iff t v).0 e) i)

  -- A settled node is not improved.
  improved_off :
      (P : String → Type 0) (d alt : W) (n : ℕ) (t : String) (s : Search W)
      → Tree net source P d n s
      → d ≼ alt
      → improves alt (get s.dist t) ≡ true
      → (v : String) → P v
      → str_eq t v ≡ false
  improved_off P d alt n t s tree h i v p = elim (Bool-cases (str_eq t v)) [
    | inl e ↦
        let (x, g, k) = tree.fixed v p in
        let less =
          lt_of_lt_of_le laws alt x alt (improves-same alt t v x s.dist i e g)
            (le_trans x d alt k h) in
        let absurd : ⊥ = ground (arith, le_refl alt, less) in elim absurd [ ]
    | inr e ↦ e
  ]

  update-exact :
      (alt : W) (u t : String) (s : Search W)
      → improves alt (get s.dist t) ≡ true
      → (e : W × String) → Entry s.dist e
      → Entry (update alt u t s).dist e
  unfolding update
  update-exact alt u t s i e (x, g, k) = elim (Bool-cases (str_eq t e.1)) [
    | inl q ↦
        let i' = improves-same alt t e.1 x s.dist i q g in
        (
          alt,
          rw (get-put s.dist t e.1 alt, q) refl,
          elim k [
            | inl same ↦ inr (rw same i')
            | inr less ↦ inr (lt_of_lt_of_le laws alt x e.0 i' (le_of_lt laws x e.0 less))
          ],
        )
    | inr q ↦ (x, rw (get-put s.dist t e.1 alt, q) g, k)
  ]

  update-Chained :
      (P : String → Type 0) (d w : W) (n : ℕ) (u : String) (e : RoadEdge W) (s : Search W)
      → ((v : String) → P v → str_eq e.target v ≡ false)
      → P u
      → Road net u e w
      → Chained net source P s.prev u d n
      → Tree net source P d n s
      → (v : String) (x : W) → get (update (f.add d w) u e.target s).dist v ≡ some x
      → Chained net source P (update (f.add d w) u e.target s).prev v x (suc n)
  unfolding update
  update-Chained P d w n u e s off pu road (p, c, l) tree v x g =
      elim (Bool-cases (str_eq e.target v)) [
        | inl q ↦
            let same : f.add d w ≡ x =
              some-injective _ _ (rw (get-put s.dist e.target v (f.add d w), q) at g) in
            let last : get (put s.prev e.target u) e.target ≡ some u =
              rw (get-put s.prev e.target e.target u, (eq_iff e.target e.target).1 refl) refl in
            let whole =
              link e w (Chain-put net source P s.prev e.target u off (off u pu) c) pu road last in
            (
              p ++ e.target ∷ [],
              rw (← same, ← (eq_iff e.target v).0 q) whole,
              omega (arith, l, length-append p (e.target ∷ [])),
            )
        | inr q ↦
            let (p', c', l') = tree.tree v x (rw (get-put s.dist e.target v (f.add d w), q) at g) in
            (p', Chain-put net source P s.prev e.target u off q c', l')
      ]

  update-Hand :
      (P : String → Type 0) (d w : W) (n : ℕ) (u : String) (e : RoadEdge W) (s : Search W)
      → d ≼ f.add d w
      → improves (f.add d w) (get s.dist e.target) ≡ true
      → Road net u e w
      → Hand net source P d n u s
      → Hand net source P d n u (update (f.add d w) u e.target s)
  unfolding update
  update-Hand P d w n u e s h i road hand =
      let off = improved_off P d (f.add d w) n e.target s hand.tree h i in
      let (p, c, l) = hand.chain in
      record {
        settled = hand.settled;
        chain = (p, Chain-put net source P s.prev e.target u off (off u hand.settled) c, l);
        tree = record {
          below = (h, hand.tree.below);
          fixed = λ v q. update-Reached laws (f.add d w) u e.target s i v d (hand.tree.fixed v q);
          exact = (
            (
              f.add d w,
              rw (get-put s.dist e.target e.target (f.add d w), (eq_iff e.target e.target).1 refl)
                  refl,
              inl refl,
            ),
            All-mono (Entry s.dist) (Entry (put s.dist e.target (f.add d w))) s.pq
                (update-exact (f.add d w) u e.target s i) hand.tree.exact,
          );
          tree = update-Chained P d w n u e s off hand.settled road hand.chain hand.tree;
        };
      }

  relax-Hand :
      (P : String → Type 0) (d : W) (n : ℕ) (u : String) (e : RoadEdge W) (s : Search W)
      → AllForward net
      → Any (λ x. e ≡ x) (roads net u)
      → Hand net source P d n u s
      → Hand net source P d n u (relax d u e s)
  relax-Hand P d n u e s forward mem hand = elim (Option-cases (travel_time e)) [
    | inl t ↦ rw (relax_skip laws d u e s t) hand
    | inr (w, t) ↦ elim (Bool-cases (improves (f.add d w) (get s.dist e.target))) [
      | inl i ↦
          rw (relax-update laws d u e s w t i)
            (update-Hand P d w n u e s (le-add laws d w (forward u e w (mem, t))) i (mem, t) hand)
      | inr i ↦ rw (relax_keep laws d u e s w t i) hand
    ]
  ]

  pub relax_all-Hand :
      (P : String → Type 0) (d : W) (n : ℕ) (u : String) (es : List (RoadEdge W)) (s : Search W)
      → AllForward net
      → All (λ e. Any (λ x. e ≡ x) (roads net u)) es
      → Hand net source P d n u s
      → Hand net source P d n u (relax_all d u es s)
  unfolding relax_all
  relax_all-Hand P d n u [] s forward mem hand = hand
  relax_all-Hand P d n u (e ∷ es) s forward mem hand =
      relax_all-Hand P d n u es (relax d u e s) forward mem.1
        (relax-Hand P d n u e s forward mem.0 hand)
