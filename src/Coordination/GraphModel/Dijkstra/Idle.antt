-- ===== src/Coordination/GraphModel/Dijkstra/Idle.antt =====
-- The rounds of the search that change nothing but the queue.
use mathlib.Core.Path.{subst}
use semaforo.Prelude.{
  ◌≡◌, ℕ, suc, ◌+◌, ◌≤◌, String, Bool, some, List, ◌∷◌, ◌⊎◌, inl, inr, true, false, length, All,
  arith,
}
use semaforo.Prelude.Dict.{Dict, get}
use semaforo.Float.{Float, IsOrdered, ◌≼◌}
use semaforo.Coordination.GraphModel.{RoadEdge, TrafficNetwork, travel_time, roads}
use semaforo.Coordination.GraphModel.Heap.{
  All-mono, Any, heappop, heappop-All, heappop-le, length-heappop,
}
use semaforo.Coordination.GraphModel.Dijkstra.{Search, is_stale, relax_all, advance}
use semaforo.Coordination.GraphModel.Dijkstra.Walks.{Road, Reached, Walk}
use semaforo.Coordination.GraphModel.Dijkstra.Updates.{Reached-le}
use semaforo.Coordination.GraphModel.Dijkstra.Invariant.{None, Inv}
use semaforo.Coordination.GraphModel.Dijkstra.Rounds.{All-Any_self, pop-Inv, advance-Inv}
use semaforo.Coordination.GraphModel.Dijkstra.Tree.{Tree, Entry}
use semaforo.Coordination.GraphModel.Dijkstra.Progress.{open_roads, relax_all_id}

-- The start, and the nodes with the mark.
abbrev pub Settled : String → (String → Bool) → String → Type 0
Settled source spent v = (v ≡ source) ⊎ (spent v ≡ true)

module _ {W : Type 0} ⦃f : Float W⦄ (net : TrafficNetwork W) (source : String) where
  -- The nodes with the mark have served their roads from some distance up to `b`.
  abbrev pub Spent : (String → Bool) → W → Search W → Type 0
  Spent spent b s =
      (v : String)
      → spent v ≡ true
      → (x : W) × (x ≼ b)
        × ((e : RoadEdge W) (w : W) → Road net v e w → Reached s.dist e.target (f.add x w))

  -- A state between rounds, the last of which was the `n`th and popped `b`.
  pub record Progress (spent : String → Bool) (b : W) (n : ℕ) (s : Search W) : Type 0 where
    pub inv : Inv net source None s
    pub tree : Tree net source (Settled source spent) b n s
    pub spent_ : Spent spent b s

  -- A bound on the rounds that are left.
  abbrev pub todo : (String → Bool) → Search W → ℕ
  todo spent s = length s.pq + open_roads spent net.edges

  -- A state that a round leaves after one with `n` rounds behind it, having less to do.
  abbrev pub Later : ℕ → ℕ → Search W → Type 0
  Later n bound s =
      (spent : String → Bool) × (b : W) × Progress spent b (suc n) s × (suc (todo spent s) ≤ bound)

module _ {W : Type 0} ⦃f : Float W⦄ where
  abbrev pub popped : Search W → W × String → List (W × String) → Search W
  popped s x xs = record s { pq = (heappop x xs).1 }

module _ {W : Type 0} ⦃f : Float W⦄ (laws : IsOrdered W) (net : TrafficNetwork W)
    (source : String) where
  open laws use {le_refl, le_trans, add_mono}

  pub pop-Tree :
      (P : String → Type 0) (b : W) (n : ℕ) (s : Search W) (x : W × String) (xs : List (W × String))
      → s.pq ≡ x ∷ xs
      → Tree net source P b n s
      → (b ≼ (heappop x xs).0.0)
        × Entry s.dist (heappop x xs).0
        × Tree net source P (heappop x xs).0.0 (suc n) (record s { pq = (heappop x xs).1 })
  pop-Tree P b n s x xs q tree =
      let below = heappop-All (λ e. b ≼ e.0) x xs (subst (All (λ e. b ≼ e.0)) q tree.below) in
      let exact = heappop-All (Entry s.dist) x xs (subst (All (Entry s.dist)) q tree.exact) in
      (
        below.0,
        exact.0,
        record {
          below = (heappop-All (λ e. (heappop x xs).0.0 ≼ e.0) x xs (heappop-le laws x xs)).1;
          fixed = λ v p. Reached-le laws s.dist v b _ below.0 (tree.fixed v p);
          exact = exact.1;
          tree = λ v y g. let (p, c, l) = tree.tree v y g in (p, c, omega (arith, l));
        },
      )

  pub fresh-Entry :
      (d : W) (u : String) (dist : Dict W)
      → Entry dist (d, u)
      → is_stale d (get dist u) ≡ false
      → get dist u ≡ some d
  fresh-Entry d u dist (y, g, inl same) fresh = rw same g
  fresh-Entry d u dist (y, g, inr less) fresh =
      let fresh' : is_stale d (some y) ≡ false = subst (λ o. is_stale d o ≡ false) g fresh in
      let absurd : ⊥ = ground arith in elim absurd [ ]

  pub popped-Walk :
      (s : Search W) (x : W × String) (xs : List (W × String))
      → s.pq ≡ x ∷ xs
      → Inv net source None s
      → Walk net source (heappop x xs).0.1 (heappop x xs).0.0
  popped-Walk s x xs q inv =
      (heappop-All (λ e. Walk net source e.1 e.0) x xs
        (subst (All (λ e. Walk net source e.1 e.0)) q inv.queued)).0

  pub round-Inv :
      (s : Search W) (x : W × String) (xs : List (W × String))
      → s.pq ≡ x ∷ xs
      → Inv net source None s
      → Inv net source None (advance net (heappop x xs).0 (popped s x xs))
  round-Inv s x xs q inv =
      advance-Inv laws net source (heappop x xs).0.0 (heappop x xs).0.1 (popped s x xs)
        (popped-Walk s x xs q inv) (pop-Inv laws net source s x xs q inv)

  -- A round that changes nothing but the queue has an entry less before it.
  pub round_idle :
      (spent : String → Bool) (b : W) (n : ℕ) (s : Search W) (x : W × String)
      (xs : List (W × String))
      → s.pq ≡ x ∷ xs
      → Progress net source spent b n s
      → advance net (heappop x xs).0 (popped s x xs) ≡ popped s x xs
      → Later net source n (todo net source spent s) (advance net (heappop x xs).0 (popped s x xs))
  round_idle spent b n s x xs q now same =
      let (nearer, entry, tree) = pop-Tree (Settled source spent) b n s x xs q now.tree in
      let inv : Inv net source None (popped s x xs) = rw same at (round-Inv s x xs q now.inv) in
      rw same (
        spent,
        (heappop x xs).0.0,
        record {
          inv = inv;
          tree = tree;
          spent_ = λ v h. let (y, k, r) = now.spent_ v h in (y, le_trans _ _ _ k nearer, r);
        },
        rw q (omega (arith, length-heappop x xs)),
      )

  pub known_idle :
      (spent : String → Bool) (b d : W) (u : String) (s : Search W)
      → spent u ≡ true
      → b ≼ d
      → Spent net source spent b s
      → relax_all d u (roads net u) s ≡ s
  known_idle spent b d u s h below now =
      let (y, k, r) = now u h in
      relax_all_id laws d u (roads net u) s (
        All-mono (λ e. Any (λ x. e ≡ x) (roads net u))
          (λ e. (w : W) → travel_time e ≡ some w → Reached s.dist e.target (f.add d w))
          (roads net u)
          (λ e m w t.
            Reached-le laws s.dist e.target _ _
              (add_mono _ _ w w (le_trans _ _ _ k below) (le_refl w)) (r e w (m, t)))
          (All-Any_self (roads net u)))
