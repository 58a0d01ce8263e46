-- ===== src/Environments/Lanes.antt =====
-- The two `_aggregate_directions`, of brain/src/environments/single_intersection.py and of
-- corridor_env.py: values per lane, taken together for north, east, south and west. `float32` and
-- `float64` are one type of numbers here.
pub mod Agree
use semaforo.Prelude.{
  ℕ, zero, suc, ◌+◌, ◌-◌, ◌*◌, ◌/◌, List, [], ◌∷◌, if◌then◌else◌, ◌==◌, leb, length, take, drop,
  map, replicate,
}
use semaforo.Float.{Float, lt, clip01, sum_f}

-- _NUM_DIRECTIONS
abbrev pub num_directions : ℕ
num_directions = 4

-- xs[start:end]
abbrev pub slice {ℓ} : {A : Type ℓ} → List A → ℕ → ℕ → List A
slice xs start end = take (end - start) (drop start xs)

-- max(n // _NUM_DIRECTIONS, 1)
abbrev pub chunk_of : ℕ → ℕ
chunk_of n = if leb (n / num_directions) 1 then 1 else n / num_directions

module _ {ℓ} {A : Type ℓ} where
  -- The slices of the single intersection: the last one takes the rest.
  unfoldable pub lane_groups : List A → List (List A)
  lane_groups xs =
      let n = length xs in
      let chunk = chunk_of n in
      slice xs 0 chunk
      ∷ slice xs chunk (2 * chunk)
      ∷ slice xs (2 * chunk) (3 * chunk)
      ∷ slice xs (3 * chunk) n
      ∷ []

  -- The slices of the corridor: four of the same length, from the start.
  unfoldable pub corridor_groups : List A → List (List A)
  corridor_groups xs =
      let lanes_per_dir = length xs / 4 in
      slice xs 0 (0 + lanes_per_dir)
      ∷ slice xs lanes_per_dir (lanes_per_dir + lanes_per_dir)
      ∷ slice xs (2 * lanes_per_dir) (2 * lanes_per_dir + lanes_per_dir)
      ∷ slice xs (3 * lanes_per_dir) (3 * lanes_per_dir + lanes_per_dir)
      ∷ []

module _ {W : Type 0} ⦃f : Float W⦄ where
  abbrev pub zeros : ℕ → List W
  zeros n = replicate n (f.ratio 0 1)

  -- np.clip(x / max_val, 0.0, 1.0)
  abbrev pub normalised : W → W → W
  normalised max_val x = clip01 (f.div x max_val)

  unfoldable pub aggregate_directions : List W → W → List W
  unfolding lane_groups
  aggregate_directions per_lane max_val =
      let result = map sum_f (lane_groups per_lane) in
      if length per_lane == 0
      then zeros 4
      else if lt (f.ratio 0 1) max_val
      then map (normalised max_val) result
      else result

  unfoldable pub aggregate_corridor_directions : List W → W → List W
  unfolding corridor_groups
  aggregate_corridor_directions per_lane max_val =
      if length per_lane == 0
      then zeros 4
      else if length per_lane / 4 == 0
      then zeros 4
      else map (normalised max_val) (map sum_f (corridor_groups per_lane))
