-- ===== src/Coordination/GreenWave.antt =====
-- brain/src/coordination/green_wave.py: offsets from positions along a corridor. `round2 x` is
-- Python's `round(x, 2)`. A ValueError is `none`.
pub mod Directions
use semaforo.Prelude.{ℕ, String, Option, none, some, List, [], ◌∷◌, map, if◌then◌else◌}
use semaforo.Float.{Float}
use semaforo.Network.Graph.{◌>>=◌}

pub record Intersection (W : Type 0) : Type 0 where
  pub id : String
  pub position_m : W
  pub cycle_length : W

-- list(reversed(xs)), onto what is reversed already
unfoldable pub reverse_onto {ℓ} : {A : Type ℓ} → List A → List A → List A
reverse_onto done [] = done
reverse_onto done (x ∷ xs) = reverse_onto (x ∷ done) xs

module _ {W : Type 0} ⦃f : Float W⦄ (round2 : W → W) where
  unfoldable pub offset : W → W → Intersection W → W
  offset origin speed_ms i = round2 (f.div (f.sub i.position_m origin) speed_ms)

  unfoldable pub compute_offsets : List (Intersection W) → W → Option (List W)
  unfolding offset
  compute_offsets [] target_speed_kmh = none
  compute_offsets (a ∷ []) target_speed_kmh = none
  compute_offsets (a ∷ b ∷ rest) target_speed_kmh =
      if f.le target_speed_kmh (f.ratio 0 1)
      then none
      else some (map (offset a.position_m (f.div target_speed_kmh (f.ratio 36 10))) (a ∷ b ∷ rest))

  unfoldable pub compute_bidirectional_offsets :
      List (Intersection W) → W → Option (List W × List W)
  unfolding compute_offsets reverse_onto
  compute_bidirectional_offsets corridor target_speed_kmh = do
    forward ← compute_offsets corridor target_speed_kmh
    reverse ← compute_offsets (reverse_onto [] corridor) target_speed_kmh
    some (forward, reverse)
