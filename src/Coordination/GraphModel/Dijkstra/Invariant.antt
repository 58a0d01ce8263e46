-- ===== src/Coordination/GraphModel/Dijkstra/Invariant.antt =====
-- What the rounds of the search keep.
use mathlib.Core.Path.{subst}
use mathlib.Core.Option.{some-injective}
use semaforo.Prelude.{
  ◌≡◌, refl, sym, ◌∙◌, String, some, List, ◌⊎◌, inl, inr, true, All, Bool-cases, Option-cases,
  str_eq, eq_iff,
}
use semaforo.Prelude.Dict.{Dict, get, put, get-put}
use semaforo.Float.{Float, IsOrdered, ◌≼◌}
use semaforo.Coordination.GraphModel.{RoadEdge, TrafficNetwork, travel_time, roads}
use semaforo.Coordination.GraphModel.Heap.{Any, All-mono}
use semaforo.Coordination.GraphModel.Dijkstra.{Search, improves, update, relax}
use semaforo.Coordination.GraphModel.Dijkstra.Updates.{
  update-Reached, not_improves, update-here, relax_skip, relax_keep, relax-update,
}
use semaforo.Coordination.GraphModel.Dijkstra.Walks.{Road, Walk, step, Reached}

module _ {W : Type 0} ⦃f : Float W⦄ where
  -- An entry of the queue for `v` is at most at `x`.
  abbrev pub Queued : List (W × String) → String → W → Type 0
  Queued pq v x = Any (λ e. (e.1 ≡ v) × (e.0 ≼ x)) pq

  -- The roads in hand lead to no improvement from `d`.
  abbrev pub Served : W → List (RoadEdge W) → Dict W → Type 0
  Served d es dist =
      All (λ e. (w : W) → travel_time e ≡ some w → Reached dist e.target (f.add d w)) es

  -- Between rounds, no node is in hand.
  abbrev pub None : String → W → Type 0
  None v x = ⊥

  -- The node in hand, until its roads are served.
  abbrev pub InHand : W × String → String → W → Type 0
  InHand least v x = (least.1 ≡ v) × (least.0 ≼ x)

module _ {W : Type 0} ⦃f : Float W⦄ (net : TrafficNetwork W) (source : String) where
  -- Each road from `v`, left at `x`, leads to no improvement.
  abbrev pub Relaxed : Dict W → String → W → Type 0
  Relaxed dist v x = (e : RoadEdge W) (w : W) → Road net v e w → Reached dist e.target (f.add x w)

  -- Between rounds (`Spare` is `None`) and within one, where the node in hand may be neither queued
  -- nor relaxed.
  pub record Inv (Spare : String → W → Type 0) (s : Search W) : Type 0 where
    pub known : (v : String) (x : W) → get s.dist v ≡ some x → Walk net source v x
    pub queued : All (λ e. Walk net source e.1 e.0) s.pq
    pub above : All (λ e. Reached s.dist e.1 e.0) s.pq
    pub start : Reached s.dist source (f.ratio 0 1)
    pub open_ :
        (v : String) (x : W)
        → get s.dist v ≡ some x
        → Queued s.pq v x ⊎ (Relaxed s.dist v x ⊎ Spare v x)

  -- A later state of the search: it is consistent, and its distances are no larger.
  pub record Lowers (Spare : String → W → Type 0) (s s' : Search W) : Type 0 where
    pub inv : Inv Spare s'
    pub lower : (v : String) (c : W) → Reached s.dist v c → Reached s'.dist v c

module _ {W : Type 0} ⦃f : Float W⦄ (laws : IsOrdered W) (net : TrafficNetwork W)
    (source : String) where
  open laws use {le_refl, le_trans, le_total, add_mono}

  update-open :
      (Spare : String → W → Type 0) (alt : W) (u t : String) (s : Search W)
      → improves alt (get s.dist t) ≡ true
      → Inv net source Spare s
      → (v : String) (x : W) → get (update alt u t s).dist v ≡ some x
      → Queued (update alt u t s).pq v x
        ⊎ (Relaxed net source (update alt u t s).dist v x ⊎ Spare v x)
  unfolding update
  update-open Spare alt u t s h inv v x g = elim (Bool-cases (str_eq t v)) [
    | inl e ↦
        let g' : some alt ≡ some x = rw (get-put s.dist t v alt, e) at g in
        let same : alt ≡ x = some-injective alt x g' in
        inl (inl ((eq_iff t v).0 e, subst (λ y. alt ≼ y) same (le_refl alt)))
    | inr e ↦
        let g' : get s.dist v ≡ some x = rw (get-put s.dist t v alt, e) at g in
        elim (inv.open_ v x g') [
          | inl q ↦ inl (inr q)
          | inr (inl r) ↦
              inr (inl (λ e' w road. update-Reached laws alt u t s h e'.target _ (r e' w road)))
          | inr (inr sp) ↦ inr (inr sp)
        ]
  ]

  update-known :
      (Spare : String → W → Type 0) (alt : W) (u t : String) (s : Search W)
      → Walk net source t alt
      → Inv net source Spare s
      → (v : String) (x : W) → get (update alt u t s).dist v ≡ some x
      → Walk net source v x
  unfolding update
  update-known Spare alt u t s walk inv v x g = elim (Bool-cases (str_eq t v)) [
    | inl e ↦
        let g' : some alt ≡ some x = rw (get-put s.dist t v alt, e) at g in
        rw (← (eq_iff t v).0 e) (subst (Walk net source t) (some-injective alt x g') walk)
    | inr e ↦ inv.known v x (rw (get-put s.dist t v alt, e) at g)
  ]

  update-above :
      (Spare : String → W → Type 0) (alt : W) (u t : String) (s : Search W)
      → improves alt (get s.dist t) ≡ true
      → Inv net source Spare s
      → All (λ e. Reached (update alt u t s).dist e.1 e.0) (update alt u t s).pq
  unfolding update
  update-above Spare alt u t s h inv = (
    (alt, rw (get-put s.dist t t alt, (eq_iff t t).1 refl) refl, le_refl alt),
    All-mono (λ e. Reached s.dist e.1 e.0) (λ e. Reached (put s.dist t alt) e.1 e.0) s.pq
        (λ e. update-Reached laws alt u t s h e.1 e.0) inv.above,
  )

  update-Inv :
      (Spare : String → W → Type 0) (alt : W) (u t : String) (s : Search W)
      → improves alt (get s.dist t) ≡ true
      → Walk net source t alt
      → Inv net source Spare s
      → Inv net source Spare (update alt u t s)
  update-Inv Spare alt u t s h walk inv = record {
    known = update-known Spare alt u t s walk inv;
    queued = unfold update in (walk, inv.queued);
    above = update-above Spare alt u t s h inv;
    start = update-Reached laws alt u t s h source _ inv.start;
    open_ = update-open Spare alt u t s h inv;
  }

  pub relax-Lowers :
      (Spare : String → W → Type 0) (d : W) (u : String) (e : RoadEdge W) (s : Search W)
      → Walk net source u d
      → Any (λ x. e ≡ x) (roads net u)
      → Inv net source Spare s
      → Lowers net source Spare s (relax d u e s)
        × ((w : W) → travel_time e ≡ some w → Reached (relax d u e s).dist e.target (f.add d w))
  relax-Lowers Spare d u e s walk mem inv = elim (Option-cases (travel_time e)) [
    | inl t ↦ rw (relax_skip laws d u e s t) (record { inv = inv; lower = λ v c r. r }, λ w k. cc)
    | inr (w, t) ↦ elim (Bool-cases (improves (f.add d w) (get s.dist e.target))) [
      | inl i ↦ rw (relax-update laws d u e s w t i) (
        record {
          inv = update-Inv Spare (f.add d w) u e.target s i (step e w walk (mem, t)) inv;
          lower = update-Reached laws (f.add d w) u e.target s i;
        },
        λ x k.
            rw (sym (some-injective w x (sym t ∙ k))) (update-here laws (f.add d w) u e.target s),
      )
      | inr i ↦ rw (relax_keep laws d u e s w t i) (
        record { inv = inv; lower = λ v c r. r },
        λ x k.
            rw (sym (some-injective w x (sym t ∙ k)))
              (not_improves laws (f.add d w) s.dist e.target i),
      )
    ]
  ]
