-- ===== src/Coordination/GraphModel/Dijkstra/Chains.antt =====
-- The chains of `prev`: what `trace` follows back from a node to the start.
use mathlib.Core.List.{append_assoc}
use semaforo.Prelude.{
  ◌≡◌, refl, sym, ap, ℕ, zero, suc, ◌≤◌, String, some, none, List, [], ◌∷◌, ◌++◌, false, length,
  length-append, arith, str_eq,
}
use semaforo.Prelude.Dict.{Dict, get, put, get-put}
use semaforo.Float.{Float}
use semaforo.Coordination.GraphModel.{RoadEdge, TrafficNetwork}
use semaforo.Coordination.GraphModel.Dijkstra.{trace}
use semaforo.Coordination.GraphModel.Dijkstra.Walks.{Road, Route, single, extend}

module _ {W : Type 0} ⦃f : Float W⦄ (net : TrafficNetwork W) (source : String) where
  -- A chain whose inner nodes meet `P`, with its cost and its nodes from the start on.
  pub data Chain (P : String → Type 0) (prev : Dict String)
      : String → W → List String → Type 0 where
    root : get prev source ≡ none → Chain P prev source (f.ratio 0 1) (source ∷ [])
    link :
        {u : String} {c : W} {p : List String} (e : RoadEdge W) (w : W)
        → Chain P prev u c p
        → P u
        → Road net u e w
        → get prev e.target ≡ some u
        → Chain P prev e.target (f.add c w) (p ++ e.target ∷ [])

  pub Chain-Route :
      (P : String → Type 0) (prev : Dict String) {v : String} {c : W} {p : List String}
      → Chain P prev v c p
      → Route net source v c p
  Chain-Route P prev (root e) = single
  Chain-Route P prev (link e w h k road g) = extend e w (Chain-Route P prev h) road

  pub Chain-mono :
      (P Q : String → Type 0) (prev : Dict String) {v : String} {c : W} {p : List String}
      → ((u : String) → P u → Q u)
      → Chain P prev v c p
      → Chain Q prev v c p
  Chain-mono P Q prev h (root e) = root e
  Chain-mono P Q prev h (link {u} e w k m road g) =
      link e w (Chain-mono P Q prev h k) (h u m) road g

  -- A new predecessor of a node off the chain changes nothing of it.
  pub Chain-put :
      (P : String → Type 0) (prev : Dict String) (t u : String) {v : String} {c : W}
      {p : List String}
      → ((x : String) → P x → str_eq t x ≡ false)
      → str_eq t v ≡ false
      → Chain P prev v c p
      → Chain P (put prev t u) v c p
  Chain-put P prev t u off n (root e) = root (rw (get-put prev t source u, n) e)
  Chain-put P prev t u off n (link {u = y} e w k m road g) =
      link e w (Chain-put P prev t u off (off y m) k) m road (rw (get-put prev t e.target u, n) g)

  -- `trace` finds the nodes of the chain when it has a unit of fuel for each.
  pub trace-Chain :
      (P : String → Type 0) (prev : Dict String) (fuel : ℕ) {v : String} {c : W} {p : List String}
      → Chain P prev v c p
      → (rest : List String) → length p ≤ fuel
      → trace fuel prev v rest ≡ some (p ++ rest)
  unfolding trace
  trace-Chain P prev zero (root e) rest h = let absurd : ⊥ = omega (arith, h) in elim absurd [ ]
  trace-Chain P prev (suc fuel) (root e) rest h = rw (trace, e) refl
  trace-Chain P prev zero (link {p} e w k m road g) rest h =
      let absurd : ⊥ = omega (arith, h, length-append p (e.target ∷ [])) in elim absurd [ ]
  trace-Chain P prev (suc fuel) (link {p} e w k m road g) rest h =
      let bound : length p ≤ fuel = omega (arith, h, length-append p (e.target ∷ [])) in
      rw (trace, g, trace-Chain P prev fuel k (e.target ∷ rest) bound)
        (ap some (sym (append_assoc p (e.target ∷ []) rest)))
