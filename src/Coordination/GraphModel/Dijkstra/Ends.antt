-- ===== src/Coordination/GraphModel/Dijkstra/Ends.antt =====
-- The search ends, in a state that knows the best distance to the target.
use mathlib.Core.Path.{subst}
use mathlib.Core.List.{append-nil}
use semaforo.Prelude.{
  ◌≡◌, refl, ◌∙◌, ap, ℕ, zero, suc, ◌+◌, ◌<◌, String, Bool, some, List, [], ◌∷◌, ◌⊎◌, inl, inr,
  true, false, All, Bool-cases, arith, eq_iff,
}
use semaforo.Prelude.Dict.{get}
use semaforo.Float.{Float, IsOrdered, ◌≼◌}
use semaforo.Coordination.GraphModel.{TrafficNetwork}
use semaforo.Coordination.GraphModel.Heap.{heappop, heappop-All, heappop-le}
use semaforo.Coordination.GraphModel.Dijkstra.{Search, at_target, advance, search, trace}
use semaforo.Coordination.GraphModel.Dijkstra.Walks.{Reached, AllForward, Walk, Route}
use semaforo.Coordination.GraphModel.Dijkstra.Updates.{Reached-le}
use semaforo.Coordination.GraphModel.Dijkstra.Invariant.{None, InHand}
use semaforo.Coordination.GraphModel.Dijkstra.Rounds.{pop-Inv, explored}
use semaforo.Coordination.GraphModel.Dijkstra.Chains.{Chain-Route, trace-Chain}
use semaforo.Coordination.GraphModel.Dijkstra.Tree.{Tree}
use semaforo.Coordination.GraphModel.Dijkstra.Idle.{Settled, Progress, todo}
use semaforo.Coordination.GraphModel.Dijkstra.Total.{round}

List-cases : {A : Type 0} (xs : List A) → (xs ≡ []) ⊎ ((y : A) × (ys : List A) × (xs ≡ y ∷ ys))
List-cases [] = inl refl
List-cases (y ∷ ys) = inr (y, ys, refl)

module _ {W : Type 0} ⦃f : Float W⦄ (net : TrafficNetwork W) (source target : String) where
  -- A state that the search may end in: `trace` finds a route of the distance with `m` units of fuel,
  -- and no walk to the target costs less.
  pub record Final (m : ℕ) (s : Search W) : Type 0 where
    pub route :
        (x : W)
        → get s.dist target ≡ some x
        → (p : List String) × Route net source target x p × (trace m s.prev target [] ≡ some p)
    pub best : (c : W) → Walk net source target c → Reached s.dist target c

module _ {W : Type 0} ⦃f : Float W⦄ (laws : IsOrdered W) (net : TrafficNetwork W)
    (source target : String) where
  open laws use {le_refl, le_trans}

  chain_found :
      (P : String → Type 0) (b : W) (n m : ℕ) (s : Search W)
      → Tree net source P b n s
      → n < m
      → (x : W) → get s.dist target ≡ some x
      → (p : List String) × Route net source target x p × (trace m s.prev target [] ≡ some p)
  chain_found P b n m s tree h x g =
      let (p, c, l) = tree.tree target x g in
      let found = trace-Chain net source P s.prev m c [] (omega (arith, l, h)) in
      (p, Chain-Route net source P s.prev c, found ∙ ap some (append-nil p))

  empty_Final :
      (spent : String → Bool) (b : W) (n m : ℕ) (s : Search W)
      → AllForward net
      → s.pq ≡ []
      → Progress net source spent b n s
      → n < m
      → Final net source target m s
  empty_Final spent b n m s forward q now h = record {
    route = chain_found (Settled source spent) b n m s now.tree h;
    best = λ c walk.
        elim (explored laws net source None (λ c. ⊥) s forward (λ c c' k a. a) (rw q tt)
          (λ v x a. a) now.inv walk) [ inl r ↦ r | inr a ↦ elim a [ ] ];
  }

  at_target_eq : (d : W) (u : String) (s : Search W) → at_target target (d, u) s ≡ true → u ≡ target
  at_target_eq d u s h = ground (arith, eq_iff u target)

  break_Final :
      (spent : String → Bool) (b : W) (n m : ℕ) (s : Search W) (x : W × String)
      (xs : List (W × String))
      → AllForward net
      → s.pq ≡ x ∷ xs
      → (heappop x xs).0.1 ≡ target
      → Progress net source spent b n s
      → n < m
      → Final net source target m (record s { pq = (heappop x xs).1 })
  break_Final spent b n m s x xs forward q e now h =
      let d = (heappop x xs).0.0 in
      let above =
        (heappop-All (λ e. Reached s.dist e.1 e.0) x xs
          (subst (All (λ e. Reached s.dist e.1 e.0)) q now.inv.above)).0 in
      let ahead = (heappop-All (λ e. d ≼ e.0) x xs (heappop-le laws x xs)).1 in
      record {
        route = chain_found (Settled source spent) b n m s now.tree h;
        best = λ c walk.
            elim (explored laws net source (InHand (heappop x xs).0) (λ c. d ≼ c)
              (record s { pq = (heappop x xs).1 }) forward (λ c c' k a. le_trans _ _ _ a k) ahead
              (λ v y p. p.1) (pop-Inv laws net source s x xs q now.inv) walk) [
                | inl r ↦ r
                | inr a ↦ Reached-le laws s.dist target d c a (rw (← e) above)
              ];
      }

  search_empty : (fuel : ℕ) (s : Search W) → s.pq ≡ [] → search (suc fuel) net target s ≡ some s
  unfolding search
  search_empty fuel s q = rw (search, q) (ap (λ p. some (record s { pq = p })) q)

  search_break :
      (fuel : ℕ) (s : Search W) (x : W × String) (xs : List (W × String))
      → s.pq ≡ x ∷ xs
      → at_target target (heappop x xs).0 (record s { pq = (heappop x xs).1 }) ≡ true
      → search (suc fuel) net target s ≡ some (record s { pq = (heappop x xs).1 })
  unfolding search
  search_break fuel s x xs q h = rw (search, q, h) refl

  search_round :
      (fuel : ℕ) (s : Search W) (x : W × String) (xs : List (W × String))
      → s.pq ≡ x ∷ xs
      → at_target target (heappop x xs).0 (record s { pq = (heappop x xs).1 }) ≡ false
      → search (suc fuel) net target s
        ≡ search fuel net target (advance net (heappop x xs).0 (record s { pq = (heappop x xs).1 }))
  unfolding search
  search_round fuel s x xs q h = rw (search, q, h) refl

  pub search_total :
      (fuel : ℕ) (spent : String → Bool) (b : W) (n m : ℕ) (s : Search W)
      → AllForward net
      → Progress net source spent b n s
      → todo net source spent s < fuel
      → n + todo net source spent s < m
      → (s' : Search W) × (search fuel net target s ≡ some s') × Final net source target m s'
  search_total zero spent b n m s forward now h k =
      let absurd : ⊥ = omega (arith, h) in elim absurd [ ]
  search_total (suc fuel) spent b n m s forward now h k = elim (List-cases s.pq) [
    | inl q ↦ (s, search_empty fuel s q, empty_Final spent b n m s forward q now (omega (arith, k)))
    | inr (x, xs, q) ↦
        elim (Bool-cases (at_target target (heappop x xs).0 (record s { pq = (heappop x xs).1 }))) [
          | inl e ↦ (
            record s { pq = (heappop x xs).1 },
            search_break fuel s x xs q e,
            break_Final spent b n m s x xs forward q
                (at_target_eq _ _ (record s { pq = (heappop x xs).1 }) e) now (omega (arith, k)),
          )
          | inr e ↦
              let (spent', b', now', less) = round laws net source spent b n s x xs forward q now in
              let (s', at, final) =
                search_total fuel spent' b' (suc n) m _ forward now' (omega (arith, h, less))
                  (omega (arith, k, less)) in
              (s', search_round fuel s x xs q e ∙ at, final)
        ]
  ]
