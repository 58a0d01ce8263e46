-- ===== src/Vision/Harness/Cameras.antt =====
-- Which cameras see which direction.
use mathlib.Core.List.{append_assoc, append-nil}
use semaforo.Prelude.{
  ℕ, suc, ◌≡◌, refl, String, Bool, ◌||◌, inl, inr, List, [], ◌∷◌, ◌++◌, if◌then◌else◌, str_eq,
  eq_iff, Bool-cases,
}
use semaforo.Vision.Harness.{Directions, add_camera, map_cameras}

-- A camera that sees an axis sees both of its directions.
abbrev pub sees : String → String → String → Bool
sees one axis direction = str_eq direction axis || str_eq direction one

abbrev pub indices : (String → Bool) → ℕ → List String → List ℕ
indices p i [] = []
indices p i (d ∷ ds) = if p d then i ∷ indices p (suc i) ds else indices p (suc i) ds

abbrev add_if : Bool → ℕ → List ℕ → List ℕ
add_if seen i is = if seen then is ++ i ∷ [] else is

add_camera_lem :
    (u : String) (i : ℕ) (d : Directions (List ℕ))
    → add_camera u i d ≡ record {
      north = add_if (sees "N" "NS" u) i d.north;
      east = add_if (sees "E" "EW" u) i d.east;
      south = add_if (sees "S" "NS" u) i d.south;
      west = add_if (sees "W" "EW" u) i d.west;
    }
unfolding add_camera
add_camera_lem u i d = elim (Bool-cases (str_eq u "NS")) [
  | inl e ↦ let same = (eq_iff u "NS").0 e in rw same refl
  | inr ns ↦ elim (Bool-cases (str_eq u "EW")) [
    | inl e ↦ let same = (eq_iff u "EW").0 e in rw same refl
    | inr ew ↦ elim (Bool-cases (str_eq u "N")) [
      | inl e ↦ let same = (eq_iff u "N").0 e in rw same refl
      | inr n ↦ elim (Bool-cases (str_eq u "E")) [
        | inl e ↦ let same = (eq_iff u "E").0 e in rw same refl
        | inr e ↦ elim (Bool-cases (str_eq u "S")) [
          | inl h ↦ let same = (eq_iff u "S").0 h in rw same refl
          | inr s ↦ elim (Bool-cases (str_eq u "W")) [
            | inl h ↦ let same = (eq_iff u "W").0 h in rw same refl
            | inr w ↦ rw (ns, ew, n, e, s, w) refl
          ]
        ]
      ]
    ]
  ]
]

add_if-indices :
    (p : String → Bool) (u : String) (i : ℕ) (ds : List String) (is : List ℕ)
    → add_if (p u) i is ++ indices p (suc i) ds ≡ is ++ indices p i (u ∷ ds)
add_if-indices p u i ds is = elim (Bool-cases (p u)) [
  | inl e ↦ rw e (append_assoc is (i ∷ []) (indices p (suc i) ds))
  | inr e ↦ rw e refl
]

module _ (upper : String → String) where
  abbrev pub sees_up : String → String → String → Bool
  sees_up one axis direction = sees one axis (upper direction)

  pub map_cameras_lem :
      (i : ℕ) (ds : List String) (d : Directions (List ℕ))
      → map_cameras upper i ds d ≡ record {
        north = d.north ++ indices (sees_up "N" "NS") i ds;
        east = d.east ++ indices (sees_up "E" "EW") i ds;
        south = d.south ++ indices (sees_up "S" "NS") i ds;
        west = d.west ++ indices (sees_up "W" "EW") i ds;
      }
  unfolding map_cameras
  map_cameras_lem i [] d =
      rw (append-nil d.north, append-nil d.east, append-nil d.south, append-nil d.west) refl
  map_cameras_lem i (u ∷ ds) d =
      rw (add_camera_lem (upper u) i d, map_cameras_lem (suc i) ds)
        (rw
          (
            add_if-indices (sees_up "N" "NS") u i ds d.north,
            add_if-indices (sees_up "E" "EW") u i ds d.east,
            add_if-indices (sees_up "S" "NS") u i ds d.south,
            add_if-indices (sees_up "W" "EW") u i ds d.west,
          )
          refl)
