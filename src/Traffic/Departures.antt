-- ===== src/Traffic/Departures.antt =====
-- The demand that is written.
use mathlib.Core.List.{Perm, perm_middle, append-nil}
use mathlib.Core.List.Perm
use mathlib.Core.Path.{subst}
use semaforo.Prelude.{
  ℕ, ◌≡◌, refl, String, Option, none, some, List, [], ◌∷◌, ◌++◌, map, All, All-append, arith,
  Bool-cases, ◌⊎◌, inl, inr,
}
use semaforo.Float.{Float, IsOrdered, ◌≼◌, lt}
use semaforo.Coordination.GraphModel.Heap.{Any}
use semaforo.Networks.{Edge, generate_single_intersection}
use semaforo.Traffic.{
  Tracks, Vehicle, RouteEdges, Timetable, vehicle_of, extract_vehicles, insert_by_depart, sort_from,
  all_vehicles, demand_of, routes, Sighting, first_seen,
}

module _ {W : Type 0} ⦃f : Float W⦄ where
  -- Each departs no later than all after it.
  abbrev pub IsSorted : List (Vehicle W) → Type 0
  IsSorted [] = Unit
  IsSorted (v ∷ vs) = All (λ x. v.depart ≼ x.depart) vs × IsSorted vs

  insert_by_depart-perm :
      (v : Vehicle W) (xs : List (Vehicle W)) → Perm (insert_by_depart v xs) (v ∷ xs)
  unfolding insert_by_depart
  insert_by_depart-perm v [] = Perm.refl _
  insert_by_depart-perm v (x ∷ xs) = elim (Bool-cases (lt v.depart x.depart)) [
    | inl e ↦ rw e (Perm.refl _)
    | inr e ↦ rw e (Perm.trans (Perm.cons x (insert_by_depart-perm v xs)) (Perm.swap v x xs))
  ]

  sort_from-perm : (sorted vs : List (Vehicle W)) → Perm (sort_from sorted vs) (vs ++ sorted)
  unfolding sort_from
  sort_from-perm sorted [] = Perm.refl _
  sort_from-perm sorted (v ∷ vs) =
      Perm.trans (sort_from-perm (insert_by_depart v sorted) vs)
        (Perm.trans (Perm.append_left vs (insert_by_depart-perm v sorted)) (perm_middle vs sorted))

module _ {W : Type 0} ⦃f : Float W⦄ (laws : IsOrdered W) where
  open laws use {le_trans, le_total}

  All-le_trans :
      (a b : Vehicle W) (xs : List (Vehicle W))
      → a.depart ≼ b.depart
      → All (λ x. b.depart ≼ x.depart) xs
      → All (λ x. a.depart ≼ x.depart) xs
  All-le_trans a b [] h k = tt
  All-le_trans a b (x ∷ xs) h k = (le_trans _ _ _ h k.0, All-le_trans a b xs h k.1)

  All-insert_by_depart :
      (P : Vehicle W → Type 0) (v : Vehicle W) (xs : List (Vehicle W))
      → P v
      → All P xs
      → All P (insert_by_depart v xs)
  unfolding insert_by_depart
  All-insert_by_depart P v [] h k = (h, tt)
  All-insert_by_depart P v (x ∷ xs) h k = elim (Bool-cases (lt v.depart x.depart)) [
    | inl e ↦ rw e (h, k)
    | inr e ↦ rw e (k.0, All-insert_by_depart P v xs h k.1)
  ]

  insert_by_depart-IsSorted :
      (v : Vehicle W) (xs : List (Vehicle W)) → IsSorted xs → IsSorted (insert_by_depart v xs)
  unfolding insert_by_depart
  insert_by_depart-IsSorted v [] h = (tt, tt)
  insert_by_depart-IsSorted v (x ∷ xs) h = elim (Bool-cases (lt v.depart x.depart)) [
    | inl e ↦
        let before : v.depart ≼ x.depart = elim (le_total v.depart x.depart) [
          | inl k ↦ k
          | inr k ↦ let absurd : ⊥ = ground arith in elim absurd [ ]
        ] in
        rw e ((before, All-le_trans v x xs before h.0), h)
    | inr e ↦
        let after : x.depart ≼ v.depart = ground arith in
        rw e (
          All-insert_by_depart (λ y. x.depart ≼ y.depart) v xs after h.0,
          insert_by_depart-IsSorted v xs h.1,
        )
  ]

  sort_from-IsSorted :
      (sorted vs : List (Vehicle W)) → IsSorted sorted → IsSorted (sort_from sorted vs)
  unfolding sort_from
  sort_from-IsSorted sorted [] h = h
  sort_from-IsSorted sorted (v ∷ vs) h =
      sort_from-IsSorted (insert_by_depart v sorted) vs (insert_by_depart-IsSorted v sorted h)

  All-sort_from :
      (P : Vehicle W → Type 0) (sorted vs : List (Vehicle W))
      → All P sorted
      → All P vs
      → All P (sort_from sorted vs)
  unfolding sort_from
  All-sort_from P sorted [] h k = h
  All-sort_from P sorted (v ∷ vs) h k =
      All-sort_from P (insert_by_depart v sorted) vs (All-insert_by_depart P v sorted k.0 h) k.1

module _ {W : Type 0} ⦃f : Float W⦄ where
  abbrev IsRouted : Vehicle W → Type 0
  IsRouted v = Any (λ r. r.id ≡ v.route) routes

  vehicle_of-IsRouted :
      (round : W → ℕ → W) (fps : W) (route prefix : String) (seen : List Sighting)
      → Any (λ r. r.id ≡ route) routes
      → All IsRouted (map (vehicle_of round fps route prefix) seen)
  unfolding vehicle_of
  vehicle_of-IsRouted round fps route prefix [] h = tt
  vehicle_of-IsRouted round fps route prefix (s ∷ seen) h =
      (h, vehicle_of-IsRouted round fps route prefix seen h)

  extract_vehicles-IsRouted :
      (round : W → ℕ → W) (tracks : Option (Tracks W)) (route prefix : String)
      → Any (λ r. r.id ≡ route) routes
      → All IsRouted (extract_vehicles round tracks route prefix)
  unfolding extract_vehicles
  extract_vehicles-IsRouted round none route prefix h = tt
  extract_vehicles-IsRouted round (some t) route prefix h =
      vehicle_of-IsRouted round _ route prefix (first_seen t.frames []) h

  all_vehicles-IsRouted :
      (round : W → ℕ → W) (n s e w : Option (Tracks W)) → All IsRouted (all_vehicles round n s e w)
  unfolding all_vehicles routes
  all_vehicles-IsRouted round n s e w =
      All-append IsRouted _ _ (extract_vehicles-IsRouted round n "ns_through" "N" (inl refl)) (
        All-append IsRouted _ _
          (extract_vehicles-IsRouted round s "sn_through" "S" (inr (inl refl)))
          (All-append IsRouted _ _
            (extract_vehicles-IsRouted round e "ew_through" "E" (inr (inr (inl refl))))
            (extract_vehicles-IsRouted round w "we_through" "W" (inr (inr (inr (inl refl)))))))

  -- Two of the edges have these names, and the second leaves from where the first arrives.
  abbrev pub IsTravelled : List (Edge W) → RouteEdges → Type 0
  IsTravelled edges r =
      Any (λ e. Any (λ e'. (r.edges ≡ e.id ∷ e'.id ∷ []) × (e.target ≡ e'.source)) edges) edges

  routes-IsTravelled :
      (round2 : W → W) (lanes : ℕ) (length speed : W)
      → All (IsTravelled (generate_single_intersection round2 lanes length speed).1) routes
  unfolding routes generate_single_intersection
  routes-IsTravelled round2 lanes length speed = (
    inl (inr (inr (inr (inl (refl, refl))))),
    (
      inr (inr (inl (inr (inl (refl, refl))))),
      (
        inr (inr (inr (inr (inl (inr (inr (inr (inr (inr (inr (inr (inl (refl, refl))))))))))))),
        (
          inr (inr (inr (inr (inr (inr (inl (inr (inr (inr (inr (inr (inl (refl, refl))))))))))))),
          tt,
        ),
      ),
    ),
  )

  -- The demand `d` for these vehicles, over a network with these edges.
  pub record IsTimetable (vehicles : List (Vehicle W)) (edges : List (Edge W)) (d : Timetable W)
      : Type 0 where
    pub in_order : IsSorted d.vehicles
    pub same_vehicles : Perm d.vehicles vehicles
    pub routed : All (λ v. Any (λ r. r.id ≡ v.route) d.routes) d.vehicles
    pub travelled : All (IsTravelled edges) d.routes

module _ {W : Type 0} ⦃f : Float W⦄ (laws : IsOrdered W) where
  demand_of-IsTimetable :
      (vehicles : List (Vehicle W)) (edges : List (Edge W))
      → All IsRouted vehicles
      → All (IsTravelled edges) routes
      → ((vehicles ≡ []) × (demand_of vehicles ≡ none))
        ⊎ ((d : Timetable W) × (demand_of vehicles ≡ some d) × IsTimetable vehicles edges d)
  unfolding demand_of
  demand_of-IsTimetable [] edges routed travelled = inl (refl, refl)
  demand_of-IsTimetable (v ∷ vs) edges routed travelled = inr (
    record { routes = routes; vehicles = sort_from [] (v ∷ vs) },
    refl,
    record {
      in_order = sort_from-IsSorted laws [] (v ∷ vs) tt;
      same_vehicles =
          subst (Perm (sort_from [] (v ∷ vs))) (append-nil (v ∷ vs)) (sort_from-perm [] (v ∷ vs));
      routed = All-sort_from laws IsRouted [] (v ∷ vs) tt routed;
      travelled = travelled;
    },
  )

  -- Either no camera has a vehicle and nothing is written, or what is written has all the vehicles of
  -- the four cameras and no others, in the order of their departures; each has a route that is
  -- declared, and each route that is declared crosses the network of the single intersection, however
  -- long and fast it is, on two of its edges.
  pub all_vehicles-IsTimetable :
      (round : W → ℕ → W) (north south east west : Option (Tracks W)) (round2 : W → W) (lanes : ℕ)
      (length speed : W)
      → let vehicles = all_vehicles round north south east west in
        let edges = (generate_single_intersection round2 lanes length speed).1 in
        ((vehicles ≡ []) × (demand_of vehicles ≡ none))
        ⊎ ((d : Timetable W) × (demand_of vehicles ≡ some d) × IsTimetable vehicles edges d)
  all_vehicles-IsTimetable round north south east west round2 lanes length speed =
      demand_of-IsTimetable (all_vehicles round north south east west)
        (generate_single_intersection round2 lanes length speed).1
        (all_vehicles-IsRouted round north south east west)
        (routes-IsTravelled round2 lanes length speed)
