-- ===== src/Coordination/GraphModel/Dijkstra/Total.antt =====
-- The search ends: each round leaves a consistent state that has less to do.
use semaforo.Prelude.{
  ◌≡◌, refl, ◌∙◌, ℕ, suc, String, Bool, some, List, ◌∷◌, inl, inr, true, false, Bool-cases, arith,
  eq_iff,
}
use semaforo.Prelude.Dict.{get}
use semaforo.Float.{Float, IsOrdered, ◌≼◌}
use semaforo.Coordination.GraphModel.{TrafficNetwork, roads}
use semaforo.Coordination.GraphModel.Heap.{heappop, length-heappop}
use semaforo.Coordination.GraphModel.Dijkstra.{Search, is_stale, relax_all, advance}
use semaforo.Coordination.GraphModel.Dijkstra.Walks.{Reached, AllForward}
use semaforo.Coordination.GraphModel.Dijkstra.Invariant.{None, InHand, Inv, Served}
use semaforo.Coordination.GraphModel.Dijkstra.Rounds.{
  All-Any_self, relax_all-Lowers, Served-road, pop-Inv,
}
use semaforo.Coordination.GraphModel.Dijkstra.Chains.{Chain-mono}
use semaforo.Coordination.GraphModel.Dijkstra.Tree.{Chained, Tree, Hand, relax_all-Hand}
use semaforo.Coordination.GraphModel.Dijkstra.Progress.{spend, open_roads-spend, length-relax_all}
use semaforo.Coordination.GraphModel.Dijkstra.Idle.{
  Settled, Spent, Progress, todo, Later, popped, pop-Tree, popped-Walk, fresh-Entry, round-Inv,
  round_idle, known_idle,
}

module _ {W : Type 0} ⦃f : Float W⦄ (laws : IsOrdered W) (net : TrafficNetwork W)
    (source : String) where
  open laws use {le_refl, le_trans}

  hand_fixed :
      (spent : String → Bool) (d : W) (n : ℕ) (u : String) (s : Search W)
      → get s.dist u ≡ some d
      → Tree net source (Settled source spent) d n s
      → (v : String) → Settled source (spend spent u) v
      → Reached s.dist v d
  hand_fixed spent d n u s at tree v (inl e) = tree.fixed v (inl e)
  hand_fixed spent d n u s at tree v (inr e) = elim (Bool-cases (spent v)) [
    | inl k ↦ tree.fixed v (inr k)
    | inr k ↦ let same : u ≡ v = (eq_iff u v).0 (rw k at e) in (d, rw (← same) at, le_refl d)
  ]

  -- The node of the popped entry is settled from here on.
  hand :
      (spent : String → Bool) (d : W) (n : ℕ) (u : String) (s : Search W)
      → get s.dist u ≡ some d
      → Chained net source (Settled source spent) s.prev u d (suc n)
      → Tree net source (Settled source spent) d (suc n) s
      → Hand net source (Settled source (spend spent u)) d (suc n) u s
  hand spent d n u s at (p, c, l) tree =
      let wider : (v : String) → Settled source spent v → Settled source (spend spent u) v =
        λ v p. elim p [ inl e ↦ inl e | inr e ↦ inr (rw e refl) ] in
      record {
        settled = inr (elim (Bool-cases (spent u)) [
          | inl e ↦ rw e refl
          | inr e ↦ rw (e, (eq_iff u u).1 refl) refl
        ]);
        chain = (
          p,
          Chain-mono net source (Settled source spent) (Settled source (spend spent u)) s.prev wider
              c,
          l,
        );
        tree = record {
          below = tree.below;
          fixed = hand_fixed spent d (suc n) u s at tree;
          exact = tree.exact;
          tree = λ v x g.
              let (p, c, l) = tree.tree v x g in
              (
                p,
                Chain-mono net source (Settled source spent) (Settled source (spend spent u)) s.prev
                    wider c,
                l,
              );
        };
      }

  spend-Spent :
      (spent : String → Bool) (b d : W) (u : String) (s s' : Search W)
      → b ≼ d
      → Spent net source spent b s
      → ((v : String) (c : W) → Reached s.dist v c → Reached s'.dist v c)
      → Served d (roads net u) s'.dist
      → Spent net source (spend spent u) d s'
  spend-Spent spent b d u s s' h now lower served v m = elim (Bool-cases (spent v)) [
    | inl e ↦
        let (y, k, r) = now v e in
        (y, le_trans _ _ _ k h, λ e w road. lower e.target _ (r e w road))
    | inr e ↦
        let same : u ≡ v = (eq_iff u v).0 (rw e at m) in
        (
          d,
          le_refl d,
          λ e w road. Served-road laws net source d u e w s'.dist served (rw same road),
        )
  ]

  advance_fresh :
      (d : W) (u : String) (s : Search W)
      → is_stale d (get s.dist u) ≡ false
      → advance net (d, u) s ≡ relax_all d u (roads net u) s
  unfolding advance
  advance_fresh d u s fresh = rw (advance, fresh) refl

  advance_stale :
      (d : W) (u : String) (s : Search W)
      → is_stale d (get s.dist u) ≡ true
      → advance net (d, u) s ≡ s
  unfolding advance
  advance_stale d u s stale = rw (advance, stale) refl

  -- A round that leaves a node for the first time has its roads less before it.
  round_spend :
      (spent : String → Bool) (b : W) (n : ℕ) (s : Search W) (x : W × String)
      (xs : List (W × String))
      → AllForward net
      → s.pq ≡ x ∷ xs
      → Progress net source spent b n s
      → is_stale (heappop x xs).0.0 (get s.dist (heappop x xs).0.1) ≡ false
      → spent (heappop x xs).0.1 ≡ false
      → Later net source n (todo net source spent s) (advance net (heappop x xs).0 (popped s x xs))
  round_spend spent b n s x xs forward q now fresh new =
      let d = (heappop x xs).0.0 in
      let u = (heappop x xs).0.1 in
      let t = popped s x xs in
      let (nearer, entry, tree) =
        pop-Tree laws net source (Settled source spent) b n s x xs q now.tree in
      let at = fresh-Entry laws net source d u s.dist entry fresh in
      let held =
        relax_all-Hand laws net source (Settled source (spend spent u)) d (suc n) u (roads net u) t
          forward (All-Any_self (roads net u))
          (hand spent d n u t at (now.tree.tree u d at) tree) in
      let (lowers, served) =
        relax_all-Lowers laws net source (InHand (d, u)) d u (roads net u) t
          (popped-Walk laws net source s x xs q now.inv) (All-Any_self (roads net u))
          (pop-Inv laws net source s x xs q now.inv) in
      let same : advance net (d, u) t ≡ relax_all d u (roads net u) t = advance_fresh d u t fresh in
      let inv : Inv net source None (relax_all d u (roads net u) t) =
        rw same at (round-Inv laws net source s x xs q now.inv) in
      rw same (
        spend spent u,
        d,
        record {
          inv = inv;
          tree = held.tree;
          spent_ =
              spend-Spent spent b d u s (relax_all d u (roads net u) t) nearer now.spent_
                lowers.lower served;
        },
        rw q (
            omega (
              arith,
              length-heappop x xs,
              length-relax_all d u (roads net u) t,
              open_roads-spend spent u net.edges new,
            )),
      )

  -- Each round leaves less to do.
  pub round :
      (spent : String → Bool) (b : W) (n : ℕ) (s : Search W) (x : W × String)
      (xs : List (W × String))
      → AllForward net
      → s.pq ≡ x ∷ xs
      → Progress net source spent b n s
      → Later net source n (todo net source spent s) (advance net (heappop x xs).0 (popped s x xs))
  round spent b n s x xs forward q now =
      let d = (heappop x xs).0.0 in
      let u = (heappop x xs).0.1 in
      let t = popped s x xs in
      elim (Bool-cases (is_stale d (get s.dist u))) [
        | inl stale ↦ round_idle laws net source spent b n s x xs q now (advance_stale d u t stale)
        | inr fresh ↦ elim (Bool-cases (spent u)) [
          | inl h ↦
              let (nearer, entry, tree) =
                pop-Tree laws net source (Settled source spent) b n s x xs q now.tree in
              round_idle laws net source spent b n s x xs q now (
                advance_fresh d u t fresh
                ∙ known_idle laws net source spent b d u t h nearer now.spent_)
          | inr h ↦ round_spend spent b n s x xs forward q now fresh h
        ]
      ]
