-- ===== src/Traffic.antt =====
-- brain/scripts/generate_sumo_traffic.py: a demand for SUMO from the vehicles that the cameras tracked.
-- The file of a camera is a value, and Python's `round` is an argument.
pub mod Sightings
pub mod Departures
pub mod Seasons
use semaforo.Prelude.{
  ℕ, String, Bool, true, false, ◌&&◌, Option, none, some, List, [], ◌∷◌, ◌++◌, map, if◌then◌else◌,
  ℤ, negsuc, leb_ℤ,
}
use semaforo.Prelude.Text.{◌+++◌, show_int}
use semaforo.Float.{Float, lt}
use semaforo.Network.Graph.{or_else}

pub record Detection : Type 0 where
  pub id : ℤ
  pub kind : String

-- `fps` is none where the metadata do not give it.
pub record Tracks (W : Type 0) : Type 0 where
  pub fps : Option W
  pub frames : List (ℕ × List Detection)

-- An entry of `first_seen`: the vehicle, with the frame and the class of a sighting.
abbrev pub Sighting : Type 0
Sighting = ℤ × ℕ × String

pub record Vehicle (W : Type 0) : Type 0 where
  pub id : String
  pub depart : W
  pub route : String
  pub vtype : String

pub record RouteEdges : Type 0 where
  pub id : String
  pub edges : List String

pub record Timetable (W : Type 0) : Type 0 where
  pub routes : List RouteEdges
  pub vehicles : List (Vehicle W)

abbrev pub same_id : ℤ → ℤ → Bool
same_id a b = leb_ℤ a b && leb_ℤ b a

-- first_seen.get(vid)
unfoldable pub get_seen : List Sighting → ℤ → Option (ℕ × String)
get_seen [] id = none
get_seen ((j, frame, kind) ∷ seen) id =
    if same_id j id then some (frame, kind) else get_seen seen id

-- A detection with the id -1 is not tracked.
unfoldable pub see : ℕ → Detection → List Sighting → List Sighting
see frame det seen = if same_id det.id (negsuc 0) then seen else elim (get_seen seen det.id) [
  | none ↦ seen ++ (det.id, frame, det.kind) ∷ []
  | some _ ↦ seen
]

unfoldable pub see_frame : ℕ → List Detection → List Sighting → List Sighting
unfolding see
see_frame frame [] seen = seen
see_frame frame (det ∷ dets) seen = see_frame frame dets (see frame det seen)

unfoldable pub first_seen : List (ℕ × List Detection) → List Sighting → List Sighting
unfolding see_frame
first_seen [] seen = seen
first_seen ((frame, dets) ∷ frames) seen = first_seen frames (see_frame frame dets seen)

abbrev pub through : String → String → String → RouteEdges
through id enter leave = record { id = id; edges = enter ∷ leave ∷ [] }

unfoldable pub routes : List RouteEdges
routes =
    through "ns_through" "north_in" "south_out"
    ∷ through "sn_through" "south_in" "north_out"
    ∷ through "ew_through" "east_in" "west_out"
    ∷ through "we_through" "west_in" "east_out"
    ∷ []

module _ {W : Type 0} ⦃f : Float W⦄ where
  unfoldable pub vehicle_of : (W → ℕ → W) → W → String → String → Sighting → Vehicle W
  vehicle_of round fps route_id prefix (vid, frame, kind) = record {
    id = prefix +++ "_" +++ show_int vid;
    depart = round (f.div (f.ratio frame 1) fps) 2;
    route = route_id;
    vtype = "passenger";
  }

  -- `none` is a path that is not given, or a file that cannot be read.
  unfoldable pub extract_vehicles :
      (W → ℕ → W) → Option (Tracks W) → String → String → List (Vehicle W)
  unfolding first_seen vehicle_of
  extract_vehicles round none route_id prefix = []
  extract_vehicles round (some file) route_id prefix =
      map (vehicle_of round (or_else file.fps (f.ratio 10 1)) route_id prefix)
        (first_seen file.frames [])

  -- `list.sort`, which keeps the order of equal keys.
  unfoldable pub insert_by_depart : Vehicle W → List (Vehicle W) → List (Vehicle W)
  insert_by_depart v [] = v ∷ []
  insert_by_depart v (x ∷ xs) =
      if lt v.depart x.depart then v ∷ x ∷ xs else x ∷ insert_by_depart v xs

  unfoldable pub sort_from : List (Vehicle W) → List (Vehicle W) → List (Vehicle W)
  unfolding insert_by_depart
  sort_from sorted [] = sorted
  sort_from sorted (v ∷ vs) = sort_from (insert_by_depart v sorted) vs

  unfoldable pub all_vehicles :
      (W → ℕ → W)
      → Option (Tracks W)
      → Option (Tracks W)
      → Option (Tracks W)
      → Option (Tracks W)
      → List (Vehicle W)
  unfolding extract_vehicles
  all_vehicles round north south east west =
      extract_vehicles round north "ns_through" "N"
      ++ (extract_vehicles round south "sn_through" "S"
          ++ (extract_vehicles round east "ew_through" "E"
              ++ extract_vehicles round west "we_through" "W"))

  -- Without a vehicle nothing is written.
  unfoldable pub demand_of : List (Vehicle W) → Option (Timetable W)
  unfolding sort_from
  demand_of [] = none
  demand_of (v ∷ vs) = some (record { routes = routes; vehicles = sort_from [] (v ∷ vs) })
