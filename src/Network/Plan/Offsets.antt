-- ===== src/Network/Plan/Offsets.antt =====
-- The offsets of a timing plan against the distances along the corridor.
use semaforo.Prelude.{
  ℕ, zero, suc, ◌<◌, ◌≡◌, refl, String, none, some, List, [], ◌∷◌, arith, length, get_or, py_mod,
  py_mod-lt, get_elem?, All, ap,
}
use mathlib.Core.Path.{subst}
use mathlib.Core.Option.{some-injective}
use semaforo.Float.{Float}
use semaforo.Network.Message.{TimingPlan}
use semaforo.Network.DiGraph.{DiGraph}
use semaforo.Network.Graph.{GraphManager, get_edge_distance}
use semaforo.Network.Plan.{
  offset_s, entry, entries_from, compute_corridor_plan, default_cycle_length_s,
}

module _ {W G : Type 0} ⦃f : Float W⦄ ⦃g : DiGraph W G⦄ (m : GraphManager W G) where
  -- The distance from the start of the corridor to its `k`-th intersection: the roads on the way, one
  -- after the other. (`d` is the distance of the start.)
  unfoldable pub distance_to : W → List String → ℕ → W
  distance_to d ids zero = d
  distance_to d ids (suc k) =
      f.add (distance_to d ids k) (get_edge_distance m (get_or ids k "") (get_or ids (suc k) ""))

  distance_to-cons :
      (d : W) (a b : String) (ids : List String) (k : ℕ)
      → distance_to d (a ∷ b ∷ ids) (suc k)
        ≡ distance_to (f.add d (get_edge_distance m a b)) (b ∷ ids) k
  unfolding distance_to
  distance_to-cons d a b ids zero = refl
  distance_to-cons d a b ids (suc k) =
      ap (λ r. f.add r (get_edge_distance m (get_or (b ∷ ids) k "") (get_or (b ∷ ids) (suc k) "")))
        (distance_to-cons d a b ids k)

  entries_from-at :
      (ids : List String) (a : String) (d : W) (k : ℕ)
      → k < length ids
      → get_elem? (entries_from m (some a) d ids) k
        ≡ some (entry (get_or ids k "") (distance_to d (a ∷ ids) (suc k)))
  unfolding entries_from
  entries_from-at [] a d k h = elim h [ ]
  entries_from-at (b ∷ ids) a d zero h = unfold distance_to in refl
  entries_from-at (b ∷ ids) a d (suc k) h =
      rw (distance_to-cons d a b ids (suc k)) (entries_from-at ids b _ k (omega arith))

  entries_from-start :
      (ids : List String) (d : W) (k : ℕ)
      → k < length ids
      → get_elem? (entries_from m none d ids) k
        ≡ some (entry (get_or ids k "") (distance_to d ids k))
  unfolding entries_from
  entries_from-start [] d k h = elim h [ ]
  entries_from-start (a ∷ ids) d zero h = unfold distance_to in refl
  entries_from-start (a ∷ ids) d (suc k) h = entries_from-at ids a d k (omega arith)

  -- What a plan says of the `k`-th intersection of a corridor.
  abbrev pub IsPlanned : List String → ℕ → TimingPlan W → Type 0
  IsPlanned ids k p =
      (length p.corridors ≡ 1)
      × All
          (λ c.
            get_elem? c.intersections k
            ≡ some (record {
              intersection_id = get_or ids k "";
              offset_s = py_mod (offset_s (distance_to (f.ratio 0 1) ids k)) default_cycle_length_s;
              cycle_length_s = default_cycle_length_s;
            }))
          p.corridors
      × (py_mod (offset_s (distance_to (f.ratio 0 1) ids k)) default_cycle_length_s
          < default_cycle_length_s)

  -- The plan of a corridor holds one corridor, whose `k`-th entry is the corridor's `k`-th
  -- intersection; its offset is the travel time at the design speed over the roads from the start,
  -- in whole seconds and modulo the cycle, and so lies within the cycle.
  pub compute_corridor_plan-IsPlanned :
      (t u : W) (ids : List String) (k : ℕ) (p : TimingPlan W)
      → k < length ids
      → compute_corridor_plan m t u ids ≡ some p
      → IsPlanned ids k p
  unfolding compute_corridor_plan entry
  compute_corridor_plan-IsPlanned t u (a ∷ b ∷ rest) k p h e =
      subst (IsPlanned (a ∷ b ∷ rest) k) (some-injective _ p e) (
        refl,
        (entries_from-start (a ∷ b ∷ rest) (f.ratio 0 1) k h, tt),
        py_mod-lt _ 90 (omega arith),
      )
  compute_corridor_plan-IsPlanned t u (a ∷ []) k p h e = cc
  compute_corridor_plan-IsPlanned t u [] k p h e = cc
