-- ===== src/Tests/Traffic.antt =====
-- Examples of the demand from tracks: two cameras, one with a vehicle on two frames.
use semaforo.Prelude.{ℕ, ◌≡◌, ◌⊎◌, refl, none, some, List, [], ◌∷◌, map, ℤ, pos, negsuc}
use semaforo.Prelude.Text.{show_int}
use semaforo.Float.Fixed.{fixed, fixed-IsOrdered}
use semaforo.Networks.{generate_single_intersection}
use semaforo.Traffic.{
  Detection, Tracks, Timetable, get_seen, first_seen, sort_from, all_vehicles, demand_of, routes,
}
use semaforo.Traffic.Sightings.{AreDistinct, sightings, first_seen_lem}
use semaforo.Traffic.Departures.{IsTimetable, all_vehicles-IsTimetable}

abbrev car : ℤ → Detection
car id = record { id = id; kind = "car" }

abbrev north_frames : List (ℕ × List Detection)
north_frames = (0, car (negsuc 0) ∷ car (pos 4) ∷ []) ∷ (30, car (pos 7) ∷ car (pos 4) ∷ []) ∷ []

abbrev north_tracks : Tracks ℤ
north_tracks = record { fps = none; frames = north_frames }

abbrev east_tracks : Tracks ℤ
east_tracks = record { fps = some (fixed.ratio 20 1); frames = (20, car (pos 4) ∷ []) ∷ [] }

north_frames_seen : first_seen north_frames [] ≡ (pos 4, 0, "car") ∷ (pos 7, 30, "car") ∷ []
unfolding first_seen get_seen
north_frames_seen = refl

abbrev demand : Timetable ℤ
demand = record {
  routes = routes;
  vehicles =
      sort_from [] (all_vehicles (λ x n. x) (some north_tracks) none (some east_tracks) none);
}

demand_ids : map (λ v. v.id) demand.vehicles ≡ "N_4" ∷ "E_4" ∷ "N_7" ∷ []
unfolding sort_from all_vehicles get_seen show_int
demand_ids = refl

all_vehicles-IsTimetable_example :
    let vehicles = all_vehicles (λ x n. x) (some north_tracks) none (some east_tracks) none in
    let edges =
      (generate_single_intersection (λ x. x) 2 (fixed.ratio 200 1) (fixed.ratio 50 1)).1 in
    ((vehicles ≡ []) × (demand_of vehicles ≡ none))
    ⊎ ((d : Timetable ℤ) × (demand_of vehicles ≡ some d) × IsTimetable vehicles edges d)
all_vehicles-IsTimetable_example =
    all_vehicles-IsTimetable fixed-IsOrdered (λ x n. x) (some north_tracks) none (some east_tracks)
      none (λ x. x) 2 (fixed.ratio 200 1) (fixed.ratio 50 1)

first_seen_lem_example :
    AreDistinct (first_seen north_frames [])
    × ((id : ℤ) → get_seen (first_seen north_frames []) id ≡ get_seen (sightings north_frames) id)
first_seen_lem_example = first_seen_lem north_frames
