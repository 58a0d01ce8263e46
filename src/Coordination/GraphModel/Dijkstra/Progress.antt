-- ===== src/Coordination/GraphModel/Dijkstra/Progress.antt =====
-- What each round of the search uses up: the roads of a node that is left for the first time, or else
-- an entry of the queue.
use semaforo.Prelude.{
  ◌≡◌, refl, sym, ℕ, ◌+◌, ◌≤◌, String, Bool, ◌||◌, some, List, [], ◌∷◌, inl, inr, true, false,
  length, if◌then◌else◌, Bool-cases, Option-cases, arith, str_eq, eq_iff,
}
use semaforo.Prelude.Dict.{Dict, get}
use semaforo.Float.{Float, IsOrdered}
use semaforo.Network.Graph.{or_else}
use semaforo.Coordination.GraphModel.{RoadEdge, travel_time}
use semaforo.Coordination.GraphModel.Dijkstra.{Search, update, relax, relax_all}
use semaforo.Coordination.GraphModel.Dijkstra.Walks.{Reached}
use semaforo.Coordination.GraphModel.Dijkstra.Updates.{relax_skip, relax_keep}
use semaforo.Coordination.GraphModel.Dijkstra.Invariant.{Served}

abbrev pub spend : (String → Bool) → String → String → Bool
spend spent u v = spent v || str_eq u v

module _ {W : Type 0} where
  -- The number of roads from the nodes without the mark.
  unfoldable pub open_roads : (String → Bool) → Dict (List (RoadEdge W)) → ℕ
  open_roads spent [] = 0
  open_roads spent ((v, es) ∷ edges) = (if spent v then 0 else length es) + open_roads spent edges

  open_roads_le :
      (spent : String → Bool) (u : String) (edges : Dict (List (RoadEdge W)))
      → open_roads (spend spent u) edges ≤ open_roads spent edges
  unfolding open_roads
  open_roads_le spent u [] = omega arith
  open_roads_le spent u ((v, es) ∷ edges) = ground (arith, open_roads_le spent u edges)

  pub open_roads-spend :
      (spent : String → Bool) (u : String) (edges : Dict (List (RoadEdge W)))
      → spent u ≡ false
      → open_roads (spend spent u) edges + length (or_else (get edges u) [])
        ≤ open_roads spent edges
  unfolding open_roads get
  open_roads-spend spent u [] h = omega arith
  open_roads-spend spent u ((v, es) ∷ edges) h = elim (Bool-cases (str_eq v u)) [
    | inl e ↦
        let same : spent v ≡ false = rw ((eq_iff v u).0 e) h in
        let marked : str_eq u v ≡ true = (eq_iff u v).1 (sym ((eq_iff v u).0 e)) in
        rw (e, same, marked) (omega (arith, open_roads_le spent u edges))
    | inr e ↦ rw e (ground (arith, open_roads-spend spent u edges h))
  ]

module _ {W : Type 0} ⦃f : Float W⦄ where
  pub length-relax_all :
      (d : W) (u : String) (es : List (RoadEdge W)) (s : Search W)
      → length (relax_all d u es s).pq ≤ length s.pq + length es
  unfolding relax_all relax update
  length-relax_all d u [] s = omega arith
  length-relax_all d u (e ∷ es) s = ground (arith, length-relax_all d u es (relax d u e s))

module _ {W : Type 0} ⦃f : Float W⦄ (laws : IsOrdered W) where
  open laws use {le_refl, le_trans}

  relax_id :
      (d : W) (u : String) (e : RoadEdge W) (s : Search W)
      → ((w : W) → travel_time e ≡ some w → Reached s.dist e.target (f.add d w))
      → relax d u e s ≡ s
  relax_id d u e s h = elim (Option-cases (travel_time e)) [
    | inl t ↦ relax_skip laws d u e s t
    | inr (w, t) ↦ let (x, g, k) = h w t in relax_keep laws d u e s w t (rw g (ground arith))
  ]

  -- A round that finds its roads served changes nothing.
  pub relax_all_id :
      (d : W) (u : String) (es : List (RoadEdge W)) (s : Search W)
      → Served d es s.dist
      → relax_all d u es s ≡ s
  unfolding relax_all
  relax_all_id d u [] s h = refl
  relax_all_id d u (e ∷ es) s h = rw (relax_id d u e s h.0) (relax_all_id d u es s h.1)
