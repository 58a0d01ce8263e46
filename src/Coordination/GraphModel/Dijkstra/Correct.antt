-- ===== src/Coordination/GraphModel/Dijkstra/Correct.antt =====
-- What the search returns.
use mathlib.Core.Path.{subst}
use mathlib.Core.Option.{some-injective}
use semaforo.Prelude.{
  ◌≡◌, refl, sym, ◌∙◌, ℕ, ◌+◌, ◌<◌, String, some, none, List, [], ◌∷◌, inl, inr, false, Bool-cases,
  Option-cases, arith, str_eq, eq_iff,
}
use semaforo.Prelude.Dict.{Dict, get, get-put}
use semaforo.Float.{Float, IsOrdered, ◌≼◌}
use semaforo.Coordination.GraphModel.{RoadEdge, TrafficNetwork}
use semaforo.Coordination.GraphModel.Dijkstra.{
  Search, Outcome, found, no_path, unknown_source, unknown_target, start, conclude, shortest_path,
}
use semaforo.Coordination.GraphModel.Dijkstra.Walks.{Reached, AllForward, Walk, here, Route}
use semaforo.Coordination.GraphModel.Dijkstra.Chains.{Chain, root}
use semaforo.Coordination.GraphModel.Dijkstra.Progress.{open_roads}
use semaforo.Coordination.GraphModel.Dijkstra.Idle.{Settled, Progress}
use semaforo.Coordination.GraphModel.{edge_count, IntersectionNode}
use semaforo.Coordination.GraphModel.Dijkstra.Ends.{Final, search_total}

module _ {W : Type 0} ⦃f : Float W⦄ (laws : IsOrdered W) (net : TrafficNetwork W)
    (source : String) where
  open laws use {le_refl}

  start_known :
      (v : String) (x : W) → get (start source).dist v ≡ some x → (source ≡ v) × (f.ratio 0 1 ≡ x)
  unfolding get
  start_known v x g = elim (Bool-cases (str_eq source v)) [
    | inl e ↦
        ((eq_iff source v).0 e, some-injective _ _ (rw (get-put [] source v (f.ratio 0 1), e) at g))
    | inr e ↦
        let absurd : get [] v ≡ some x = rw (get-put [] source v (f.ratio 0 1), e) at g in
        let impossible : ⊥ = ground arith in elim impossible [ ]
  ]

  start_at : get (start source).dist source ≡ some (f.ratio 0 1)
  start_at = rw (get-put [] source source (f.ratio 0 1), (eq_iff source source).1 refl) refl

  start_Reached : Reached (start source).dist source (f.ratio 0 1)
  start_Reached = (f.ratio 0 1, start_at, le_refl _)

  start-Progress : Progress net source (λ v. false) (f.ratio 0 1) 0 (start source)
  unfolding get
  start-Progress = record {
    inv = record {
      known = λ v x g.
          let (e, k) = start_known v x g in
          subst (λ v. Walk net source v x) e (subst (Walk net source source) k here);
      queued = (here, tt);
      above = (start_Reached, tt);
      start = start_Reached;
      open_ = λ v x g.
          let (e, k) = start_known v x g in
          inl (inl (e, subst (λ x. f.ratio 0 1 ≼ x) k (le_refl _)));
    };
    tree = record {
      below = (le_refl _, tt);
      fixed = λ v p. elim p [
        | inl e ↦ rw e start_Reached
        | inr e ↦ let absurd : ⊥ = ground arith in elim absurd [ ]
      ];
      exact = ((f.ratio 0 1, start_at, inl refl), tt);
      tree = λ v x g.
          let (e, k) = start_known v x g in
          (
            source ∷ [],
            subst (λ v. Chain net source (Settled source (λ v. false)) [] v x (source ∷ [])) e
                (subst
                  (λ x. Chain net source (Settled source (λ v. false)) [] source x (source ∷ [])) k
                  (root refl)),
            omega arith,
          );
    };
    spent_ = λ v e. let absurd : ⊥ = ground arith in elim absurd [ ];
  }

module _ {W : Type 0} ⦃f : Float W⦄ where
  roads_count :
      (edges : Dict (List (RoadEdge W))) → open_roads (λ v. false) edges ≡ edge_count edges
  unfolding open_roads edge_count
  roads_count [] = refl
  roads_count ((u, es) ∷ edges) = rw (roads_count edges) refl

module _ {W : Type 0} ⦃f : Float W⦄ (net : TrafficNetwork W) (source target : String) where
  -- A route with the least time of all walks, or none where there is no walk.
  abbrev pub Best : Outcome W → Type 0
  Best (found path d) =
      Route net source target d path × ((c : W) → Walk net source target c → d ≼ c)
  Best no_path = (c : W) → ¬ Walk net source target c
  Best unknown_source = ⊥
  Best unknown_target = ⊥

module _ {W : Type 0} ⦃f : Float W⦄ (laws : IsOrdered W) (net : TrafficNetwork W)
    (source target : String) where
  none_ne : (x : W) → none ≡ some x → ⊥
  none_ne x e = ground arith

  conclude-Best :
      (fuel : ℕ) (s : Search W)
      → Final net source target fuel s
      → (o : Outcome W) × (conclude fuel target s ≡ some o) × Best net source target o
  unfolding conclude
  conclude-Best fuel s final = elim (Option-cases (get s.dist target)) [
    | inl e ↦ (
      no_path,
      rw (conclude, e) refl,
      λ c walk. let (x, g, h) = final.best c walk in elim (none_ne x (sym e ∙ g)) [ ],
    )
    | inr (d, e) ↦
        let (path, route, at) = final.route d e in
        (
          found path d,
          rw (conclude, e, at) refl,
          (
            route,
            λ c walk.
                let (x, g, h) = final.best c walk in
                subst (λ y. y ≼ c) (some-injective x d (sym g ∙ e)) h,
          ),
        )
  ]

  -- With a unit of fuel for each road and two more, the search between two known nodes returns, if no
  -- road takes less than no time: it finds a route whose time is the least of all walks from the
  -- source to the target, or reports that there is no path when there is no such walk.
  pub shortest_path-Best :
      (fuel : ℕ) (a b : IntersectionNode W)
      → AllForward net
      → get net.nodes source ≡ some a
      → get net.nodes target ≡ some b
      → edge_count net.edges + 1 < fuel
      → (o : Outcome W) × (shortest_path fuel net source target ≡ some o) × Best net source target o
  unfolding shortest_path
  shortest_path-Best fuel a b forward s t h =
      let (last, e, final) =
        search_total laws net source target fuel (λ v. false) (f.ratio 0 1) 0 fuel (start source)
          forward (start-Progress laws net source) (omega (arith, h, roads_count net.edges))
          (omega (arith, h, roads_count net.edges)) in
      let (o, k, best) = conclude-Best fuel last final in (o, rw (shortest_path, s, t, e) k, best)
