-- ===== src/Coordination/GraphModel/Dijkstra/Rounds.antt =====
-- The rounds of the search keep its state consistent, and what a consistent state has explored.
use mathlib.Core.Path.{subst}
use semaforo.Prelude.{
  if_ind_eq, ◌≡◌, refl, sym, String, some, List, [], ◌∷◌, ◌⊎◌, inl, inr, true, All, arith,
}
use semaforo.Prelude.Dict.{Dict, get}
use semaforo.Float.{Float, IsOrdered, ◌≼◌, lt}
use semaforo.Float.Order.{le-add}
use semaforo.Coordination.GraphModel.{RoadEdge, TrafficNetwork, travel_time, roads}
use semaforo.Coordination.GraphModel.Heap.{
  Any, All-Any, All-mono, heappop, heappop-All, heappop-Any,
}
use semaforo.Coordination.GraphModel.Dijkstra.{Search, is_stale, relax, relax_all, advance}
use semaforo.Coordination.GraphModel.Dijkstra.Walks.{Road, Walk, here, step, Reached, AllForward}
use semaforo.Coordination.GraphModel.Dijkstra.Invariant.{
  None, InHand, Served, Queued, Inv, Lowers, relax-Lowers,
}
use semaforo.Coordination.GraphModel.Dijkstra.Updates.{Reached-le}

-- A list's elements are among them.
pub All-Any_self : {A : Type 0} (xs : List A) → All (λ (e : A). Any (λ x. e ≡ x) xs) xs
All-Any_self [] = tt
All-Any_self (x ∷ xs) = (
  inl refl,
  All-mono (λ e. Any (λ y. e ≡ y) xs) (λ e. Any (λ y. e ≡ y) (x ∷ xs)) xs (λ e a. inr a)
      (All-Any_self xs),
)

module _ {W : Type 0} ⦃f : Float W⦄ (laws : IsOrdered W) (net : TrafficNetwork W)
    (source : String) where
  open laws use {le_refl, le_trans, add_mono}

  Served-lower :
      (d : W) (es : List (RoadEdge W)) (dist dist' : Dict W)
      → ((v : String) (c : W) → Reached dist v c → Reached dist' v c)
      → Served d es dist
      → Served d es dist'
  Served-lower d es dist dist' h =
      All-mono (λ e. (w : W) → travel_time e ≡ some w → Reached dist e.target (f.add d w))
        (λ e. (w : W) → travel_time e ≡ some w → Reached dist' e.target (f.add d w)) es
        (λ e k w t. h e.target _ (k w t))

  pub relax_all-Lowers :
      (Spare : String → W → Type 0) (d : W) (u : String) (es : List (RoadEdge W)) (s : Search W)
      → Walk net source u d
      → All (λ e. Any (λ x. e ≡ x) (roads net u)) es
      → Inv net source Spare s
      → Lowers net source Spare s (relax_all d u es s) × Served d es (relax_all d u es s).dist
  unfolding relax_all
  relax_all-Lowers Spare d u [] s walk mem inv = (record { inv = inv; lower = λ v c r. r }, tt)
  relax_all-Lowers Spare d u (e ∷ es) s walk mem inv =
      let (first, at) = relax-Lowers laws net source Spare d u e s walk mem.0 inv in
      let (rest, served) = relax_all-Lowers Spare d u es (relax d u e s) walk mem.1 first.inv in
      (
        record { inv = rest.inv; lower = λ v c r. rest.lower v c (first.lower v c r) },
        (λ w t. rest.lower e.target _ (at w t), served),
      )

  pub pop-Inv :
      (s : Search W) (x : W × String) (xs : List (W × String))
      → s.pq ≡ x ∷ xs
      → Inv net source None s
      → Inv net source (InHand (heappop x xs).0) (record s { pq = (heappop x xs).1 })
  pop-Inv s x xs q inv = record {
    known = inv.known;
    queued = (heappop-All _ x xs (subst (All (λ e. Walk net source e.1 e.0)) q inv.queued)).1;
    above = (heappop-All _ x xs (subst (All (λ e. Reached s.dist e.1 e.0)) q inv.above)).1;
    start = inv.start;
    open_ = λ v y g. elim (inv.open_ v y g) [
      | inl a ↦ elim (heappop-Any _ x xs (subst (λ p. Queued p v y) q a)) [
        | inl p ↦ inr (inr p)
        | inr b ↦ inl b
      ]
      | inr (inl r) ↦ inr (inl r)
      | inr (inr n) ↦ elim n [ ]
    ];
  }

  not_in_hand :
      (d : W) (u v : String) (y : W) (s : Search W)
      → is_stale d (get s.dist u) ≡ true
      → get s.dist v ≡ some y
      → u ≡ v
      → d ≼ y
      → ⊥
  not_in_hand d u v y s stale g e k =
      let here : is_stale d (get s.dist v) ≡ true =
        subst (λ v. is_stale d (get s.dist v) ≡ true) e stale in
      let stale' : lt y d ≡ true = subst (λ o. is_stale d o ≡ true) g here in ground arith

  pub Served-road :
      (d : W) (u : String) (e : RoadEdge W) (w : W) (dist : Dict W)
      → Served d (roads net u) dist
      → Road net u e w
      → Reached dist e.target (f.add d w)
  Served-road d u e w dist served road =
      All-Any (λ e. (w : W) → travel_time e ≡ some w → Reached dist e.target (f.add d w))
        (λ x. e ≡ x) (roads net u) served road.0
        (λ x k m.
          subst (λ e. (w : W) → travel_time e ≡ some w → Reached dist e.target (f.add d w)) (sym m)
            k w road.1)

  settle-Inv :
      (d : W) (u : String) (s : Search W)
      → Served d (roads net u) s.dist
      → Inv net source (InHand (d, u)) s
      → Inv net source None s
  settle-Inv d u s served inv = record {
    known = inv.known;
    queued = inv.queued;
    above = inv.above;
    start = inv.start;
    open_ = λ v y g. elim (inv.open_ v y g) [
      | inl q ↦ inl q
      | inr (inl r) ↦ inr (inl r)
      | inr (inr h) ↦ inr (
          inl (λ e w road.
            Reached-le laws s.dist e.target _ _ (add_mono _ _ w w h.1 (le_refl w))
              (Served-road d u e w s.dist served (rw h.0 road))))
    ];
  }

  pub advance-Inv :
      (d : W) (u : String) (s : Search W)
      → Walk net source u d
      → Inv net source (InHand (d, u)) s
      → Inv net source None (advance net (d, u) s)
  unfolding advance
  advance-Inv d u s walk inv =
      if_ind_eq (λ t. Inv net source None t) (is_stale d (get s.dist u))
        (λ stale. record {
          known = inv.known;
          queued = inv.queued;
          above = inv.above;
          start = inv.start;
          open_ = λ v y g. elim (inv.open_ v y g) [
            | inl q ↦ inl q
            | inr (inl r) ↦ inr (inl r)
            | inr (inr h) ↦ elim (not_in_hand d u v y s stale g h.0 h.1) [ ]
          ];
        })
        (λ fresh.
          let (lowers, served) =
            relax_all-Lowers (InHand (d, u)) d u (roads net u) s walk (All-Any_self (roads net u))
              inv in
          settle-Inv d u _ served lowers.inv)

  explored_step :
      (Spare : String → W → Type 0) (Beyond : W → Type 0) (s : Search W)
      → AllForward net
      → ((c c' : W) → c ≼ c' → Beyond c → Beyond c')
      → All (λ e. Beyond e.0) s.pq
      → ((v : String) (x : W) → Spare v x → Beyond x)
      → Inv net source Spare s
      → (u : String) (c : W) (e : RoadEdge W) (w : W) → Road net u e w
      → Reached s.dist u c
      → Reached s.dist e.target (f.add c w) ⊎ Beyond (f.add c w)
  explored_step Spare Beyond s forward up ahead spare inv u c e w road (x, g, h) =
      let further : c ≼ f.add c w = le-add laws c w (forward u e w road) in
      elim (inv.open_ u x g) [
        | inl q ↦ inr (
            All-Any (λ e. Beyond e.0) (λ e. (e.1 ≡ u) × (e.0 ≼ x)) s.pq ahead q
              (λ z b k. up _ _ (le_trans _ _ _ k.1 (le_trans _ _ _ h further)) b))
        | inr (inl r) ↦
            inl (Reached-le laws s.dist e.target _ _ (add_mono _ _ w w h (le_refl w)) (r e w road))
        | inr (inr p) ↦ inr (up _ _ (le_trans _ _ _ h further) (spare u x p))
      ]

  -- A walk's end is reached at its cost, unless the cost is beyond the queue.
  pub explored :
      (Spare : String → W → Type 0) (Beyond : W → Type 0) (s : Search W)
      → AllForward net
      → ((c c' : W) → c ≼ c' → Beyond c → Beyond c')
      → All (λ e. Beyond e.0) s.pq
      → ((v : String) (x : W) → Spare v x → Beyond x)
      → Inv net source Spare s
      → {v : String} {c : W} → Walk net source v c
      → Reached s.dist v c ⊎ Beyond c
  explored Spare Beyond s forward up ahead spare inv here = inl inv.start
  explored Spare Beyond s forward up ahead spare inv (step {u} {c} e w walk road) =
      elim (explored Spare Beyond s forward up ahead spare inv walk) [
        | inl r ↦ explored_step Spare Beyond s forward up ahead spare inv u c e w road r
        | inr b ↦ inr (up _ _ (le-add laws c w (forward u e w road)) b)
      ]
