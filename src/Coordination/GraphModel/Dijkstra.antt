-- ===== src/Coordination/GraphModel/Dijkstra.antt =====
-- `TrafficNetwork.shortest_path` (brain/src/coordination/graph_model.py). A name with no entry in `dist`
-- is at infinity, and one with no entry in `prev` has no predecessor. The two `while` loops run on
-- fuel; `none` is a loop that has used it up.
pub mod Walks
pub mod Updates
pub mod Invariant
pub mod Rounds
pub mod Chains
pub mod Tree
pub mod Progress
pub mod Idle
pub mod Total
pub mod Ends
pub mod Correct
use semaforo.Prelude.{
  ℕ, zero, suc, String, Option, none, some, List, [], ◌∷◌, if◌then◌else◌, Bool, true, false, ◌&&◌,
  not, str_eq,
}
use semaforo.Prelude.Dict
use semaforo.Prelude.Dict.{Dict}
use semaforo.Float.{Float, lt}
use semaforo.Network.Graph.{◌>>=◌}
use semaforo.Coordination.GraphModel.{RoadEdge, TrafficNetwork, travel_time, roads}
use semaforo.Coordination.GraphModel.Heap.{heappop}

pub record Search (W : Type 0) : Type 0 where
  pub dist : Dict W
  pub prev : Dict String
  pub pq : List (W × String)

pub data Outcome (W : Type 0) : Type 0 where
  found : List String → W → Outcome W
  no_path unknown_source unknown_target : Outcome W

-- The path from the start to `node`, before `path`.
unfoldable pub trace : ℕ → Dict String → String → List String → Option (List String)
trace zero prev node path = none
trace (suc fuel) prev node path = elim (Dict.get prev node) [
  | none ↦ some (node ∷ path)
  | some p ↦ trace fuel prev p (node ∷ path)
]

module _ {W : Type 0} ⦃f : Float W⦄ where
  -- alt < dist[v]
  abbrev pub improves : W → Option W → Bool
  improves alt none = true
  improves alt (some d) = lt alt d

  -- d > dist[u]
  abbrev pub is_stale : W → Option W → Bool
  is_stale d none = false
  is_stale d (some x) = lt x d

  unfoldable pub update : W → String → String → Search W → Search W
  update alt u v s = record {
    dist = Dict.put s.dist v alt;
    prev = Dict.put s.prev v u;
    pq = (alt, v) ∷ s.pq;
  }

  -- The body of the loop over the roads from `u`; a road that takes for ever improves nothing.
  unfoldable pub relax : W → String → RoadEdge W → Search W → Search W
  unfolding update
  relax d u e s = elim (travel_time e) [
    | none ↦ s
    | some w ↦
        if improves (f.add d w) (Dict.get s.dist e.target)
        then update (f.add d w) u e.target s
        else s
  ]

  unfoldable pub relax_all : W → String → List (RoadEdge W) → Search W → Search W
  unfolding relax
  relax_all d u [] s = s
  relax_all d u (e ∷ es) s = relax_all d u es (relax d u e s)

  -- One round after `heappop` gave `(d, u)`, unless the round breaks the loop.
  unfoldable pub advance : TrafficNetwork W → W × String → Search W → Search W
  unfolding relax_all
  advance net (d, u) s = if is_stale d (Dict.get s.dist u) then s else relax_all d u (roads net u) s

  -- The round that breaks the loop.
  abbrev pub at_target : String → W × String → Search W → Bool
  at_target target (d, u) s = not (is_stale d (Dict.get s.dist u)) && str_eq u target

  unfoldable pub search : ℕ → TrafficNetwork W → String → Search W → Option (Search W)
  unfolding advance
  search zero net target s = none
  search (suc fuel) net target s = elim s.pq [
    | [] ↦ some s
    | x ∷ xs ↦
        let least = (heappop x xs).0 in
        let s' = record s { pq = (heappop x xs).1 } in
        elim (at_target target least s') [
          | true ↦ some s'
          | false ↦ search fuel net target (advance net least s')
        ]
  ]

  abbrev pub start : String → Search W
  start source = record {
    dist = Dict.put [] source (f.ratio 0 1);
    prev = [];
    pq = (f.ratio 0 1, source) ∷ [];
  }

  unfoldable pub conclude : ℕ → String → Search W → Option (Outcome W)
  unfolding trace
  conclude fuel target s = elim (Dict.get s.dist target) [
    | none ↦ some no_path
    | some d ↦ do path ← trace fuel s.prev target []; some (found path d)
  ]

  unfoldable pub shortest_path : ℕ → TrafficNetwork W → String → String → Option (Outcome W)
  unfolding search conclude
  shortest_path fuel net source target = elim (Dict.get net.nodes source) [
    | none ↦ some unknown_source
    | some _ ↦ elim (Dict.get net.nodes target) [
      | none ↦ some unknown_target
      | some _ ↦ do s ← search fuel net target (start source); conclude fuel target s
    ]
  ]
