-- ===== src/Tests/Coordination.antt =====
-- An example of the green wave: three signals, at 0, 500 and 1200 metres, for 50 km/h.
use semaforo.Prelude.{String, ◌≡◌, refl, some, List, [], ◌∷◌, All, ℤ, ℕ}
use semaforo.Float.{◌≼◌}
use semaforo.Float.Fixed.{fixed, fixed-IsOrdered}
use semaforo.Coordination.GreenWave.{Intersection, compute_bidirectional_offsets}
use semaforo.Coordination.GreenWave.Directions.{compute_bidirectional_offsets_signs}

abbrev signal_at : String → ℕ → Intersection ℤ
signal_at id metres = record {
  id = id;
  position_m = fixed.ratio metres 1;
  cycle_length = fixed.ratio 60 1;
}

-- A rounding that keeps all six decimals.
abbrev keep_decimals : ℤ → ℤ
keep_decimals x = x

compute_bidirectional_offsets_signs_example :
    (forward : List ℤ) × (reverse : List ℤ) × (compute_bidirectional_offsets keep_decimals
        (signal_at "A" 0 ∷ signal_at "B" 500 ∷ signal_at "C" 1200 ∷ [])
        (fixed.ratio 50 1)
      ≡ some (forward, reverse))
    × All (λ o. fixed.ratio 0 1 ≼ o) forward
    × All (λ o. o ≼ fixed.ratio 0 1) reverse
compute_bidirectional_offsets_signs_example =
    compute_bidirectional_offsets_signs fixed-IsOrdered keep_decimals (λ a b h. h) refl
      (signal_at "A" 0) (signal_at "B" 500) (signal_at "C" 1200 ∷ []) (fixed.ratio 50 1) refl refl
      ((refl, refl), ((refl, refl), ((refl, refl), tt)))
