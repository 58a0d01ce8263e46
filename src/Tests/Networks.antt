-- ===== src/Tests/Networks.antt =====
-- Examples of the generated networks: a corridor of three intersections, as the scenarios use it.
use semaforo.Prelude.{
  ◌≡◌, refl, String, List, [], ◌∷◌, ◌++◌, map, Bool, true, false, ◌&&◌, ◌||◌, All, ℤ, str_eq,
}
use semaforo.Float.Fixed.{fixed}
use semaforo.Networks.{Edge, generate_single_intersection, generate_corridor}
use semaforo.Networks.Wiring.{IsWired, generate_corridor-IsWired}
use semaforo.Training.Scenarios.Routes.{Route, all_routes}

generate_corridor-IsWired_example :
    let single = generate_single_intersection (λ x. x) 2 (fixed.ratio 200 1) (fixed.ratio 50 1) in
    let corridor =
      generate_corridor (λ x. x) 3 (fixed.ratio 300 1) 2 (fixed.ratio 50 1) (fixed.ratio 200 1) in
    All (IsWired single.0) single.1 × All (IsWired corridor.0) corridor.1
generate_corridor-IsWired_example =
    generate_corridor-IsWired (λ x. x) 2 2 (fixed.ratio 300 1) (fixed.ratio 50 1)
      (fixed.ratio 200 1)

abbrev has_edge : List (Edge ℤ) → String → Bool
has_edge [] id = false
has_edge (e ∷ es) id = str_eq e.id id || has_edge es id

abbrev has_edges : List (Edge ℤ) → List String → Bool
has_edges es [] = true
has_edges es (id ∷ ids) = has_edge es id && has_edges es ids

abbrev has_routes : List (Edge ℤ) → List Route → Bool
has_routes es [] = true
has_routes es (r ∷ rs) = has_edges es r.edges && has_routes es rs

-- The edges of the scenarios' routes are edges of the corridor.
has_routes_run :
    has_routes
      (generate_corridor (λ x. x) 3 (fixed.ratio 300 1) 2 (fixed.ratio 50 1) (fixed.ratio 200 1)).1
      all_routes
    ≡ true
unfolding generate_corridor semaforo.Training.Scenarios.Routes.cross_routes
    semaforo.Prelude.Text.show_int
has_routes_run = refl
