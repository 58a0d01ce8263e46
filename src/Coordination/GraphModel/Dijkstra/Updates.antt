-- ===== src/Coordination/GraphModel/Dijkstra/Updates.antt =====
-- Updates and relaxations of the search, whatever the network.
use mathlib.Core.Path.{subst}
use semaforo.Prelude.{
  ◌≡◌, refl, String, some, none, inl, inr, true, false, Bool-cases, Option-cases, arith, str_eq,
  eq_iff,
}
use semaforo.Prelude.Dict.{Dict, get, get-put}
use semaforo.Float.{Float, IsOrdered, ◌≼◌, lt}
use semaforo.Float.Order.{le_of_lt}
use semaforo.Coordination.GraphModel.{RoadEdge, travel_time}
use semaforo.Coordination.GraphModel.Dijkstra.{Search, improves, update, relax}
use semaforo.Coordination.GraphModel.Dijkstra.Walks.{Reached}

module _ {W : Type 0} ⦃f : Float W⦄ (laws : IsOrdered W) where
  open laws use {le_refl, le_trans, le_total, add_mono}

  pub Reached-le :
      (dist : Dict W) (v : String) (c c' : W) → c ≼ c' → Reached dist v c → Reached dist v c'
  Reached-le dist v c c' h (x, e, k) = (x, e, le_trans _ _ _ k h)

  pub improves_le :
      (alt : W) (dist : Dict W) (v : String) (c : W)
      → improves alt (get dist v) ≡ true
      → Reached dist v c
      → alt ≼ c
  improves_le alt dist v c h (x, e, k) =
      let e' : lt alt x ≡ true = subst (λ o. improves alt o ≡ true) e h in
      le_trans _ _ _ (le_of_lt laws alt x e') k

  -- An update only lowers distances.
  pub update-Reached :
      (alt : W) (u t : String) (s : Search W)
      → improves alt (get s.dist t) ≡ true
      → (v : String) (c : W) → Reached s.dist v c
      → Reached (update alt u t s).dist v c
  unfolding update
  update-Reached alt u t s h v c r = elim (Bool-cases (str_eq t v)) [
    | inl e ↦
        let at : t ≡ v = (eq_iff t v).0 e in
        (alt, rw (get-put s.dist t v alt, e), improves_le alt s.dist t c h (rw at r))
    | inr e ↦ (r.0, rw (get-put s.dist t v alt, e) r.1, r.2)
  ]

  pub relax_skip :
      (d : W) (u : String) (e : RoadEdge W) (s : Search W)
      → travel_time e ≡ none
      → relax d u e s ≡ s
  unfolding relax
  relax_skip d u e s t = rw (relax, t) refl

  pub relax_keep :
      (d : W) (u : String) (e : RoadEdge W) (s : Search W) (w : W)
      → travel_time e ≡ some w
      → improves (f.add d w) (get s.dist e.target) ≡ false
      → relax d u e s ≡ s
  unfolding relax
  relax_keep d u e s w t i = rw (relax, t, i) refl

  pub relax-update :
      (d : W) (u : String) (e : RoadEdge W) (s : Search W) (w : W)
      → travel_time e ≡ some w
      → improves (f.add d w) (get s.dist e.target) ≡ true
      → relax d u e s ≡ update (f.add d w) u e.target s
  unfolding relax
  relax-update d u e s w t i = rw (relax, t, i) refl

  not_found :
      (alt : W) (dist : Dict W) (v : String)
      → get dist v ≡ none
      → improves alt (get dist v) ≡ false
      → ⊥
  not_found alt dist v e h = ground (arith, subst (λ o. improves alt o ≡ false) e h)

  pub not_improves :
      (alt : W) (dist : Dict W) (v : String)
      → improves alt (get dist v) ≡ false
      → Reached dist v alt
  not_improves alt dist v h = elim (Option-cases (get dist v)) [
    | inl e ↦ elim (not_found alt dist v e h) [ ]
    | inr (x, e) ↦ (x, e, ground (arith, subst (λ o. improves alt o ≡ false) e h))
  ]

  pub update-here : (alt : W) (u t : String) (s : Search W) → Reached (update alt u t s).dist t alt
  unfolding update
  update-here alt u t s = (alt, rw (get-put s.dist t t alt, (eq_iff t t).1 refl) refl, le_refl alt)
