-- ===== src/Vision/Layout.antt =====
-- The layout that the observation of the cameras shares with that of the training environment.
use semaforo.Prelude.{
  ℕ, zero, suc, ◌+◌, ◌%◌, ◌<◌, ◌≡◌, refl, ap, some, List, [], ◌∷◌, ◌++◌, map, set, length, ◌==◌,
  py_mod, py_mod-lt, if_ind, arith,
}
use semaforo.Float.{Float, clip01, max_f, lt}
use semaforo.Environments.Signal.{TrafficSignal}
use semaforo.Environments.Lanes.{zeros, aggregate_directions, lane_groups}
use semaforo.Environments.OwnState.{assign}
use semaforo.Environments.OwnState.Layout.{IsFour}
use semaforo.Environments.Multi.{canonical17}
use semaforo.Vision.{ObservationBuilder, camera_queue, elapsed_in_window, build}

module _ {W : Type 0} ⦃f : Float W⦄ where
  -- The canonical layout: queues and densities for north, east, south and west, the phase as one of
  -- four, the share of time elapsed, and the densities downstream.
  abbrev pub canonical : List W → List W → ℕ → W → List W → List W
  canonical queues densities slot elapsed down =
      map clip01 (queues ++ densities ++ set (zeros 4) slot (f.ratio 1 1) ++ (elapsed ∷ down))

  aggregate_directions-IsFour :
      (xs : List W) (max_val : W) → IsFour (aggregate_directions xs max_val)
  unfolding aggregate_directions lane_groups
  aggregate_directions-IsFour xs max_val =
      if_ind {A = List W} IsFour (length xs == 0) (_, _, _, _, refl)
        (if_ind {A = List W} IsFour (lt (f.ratio 0 1) max_val) (_, _, _, _, refl)
          (_, _, _, _, refl))

  write_canonical :
      (a b c d a' b' c' d' a'' b'' c'' d'' t : W) (slot : ℕ)
      → slot < 4
      → assign
          (set
            (set
              (assign (assign (zeros 17) 0 (a ∷ b ∷ c ∷ d ∷ [])) 4 (a' ∷ b' ∷ c' ∷ d' ∷ []))
              (8 + slot)
              (f.ratio 1 1))
            12
            t)
          13
          (a'' ∷ b'' ∷ c'' ∷ d'' ∷ [])
        ≡ (a ∷ b ∷ c ∷ d ∷ [])
          ++ (a' ∷ b' ∷ c' ∷ d' ∷ [])
          ++ set (zeros 4) slot (f.ratio 1 1)
          ++ (t ∷ a'' ∷ b'' ∷ c'' ∷ d'' ∷ [])
  write_canonical a b c d a' b' c' d' a'' b'' c'' d'' t zero h = refl
  write_canonical a b c d a' b' c' d' a'' b'' c'' d'' t (suc zero) h = refl
  write_canonical a b c d a' b' c' d' a'' b'' c'' d'' t (suc (suc zero)) h = refl
  write_canonical a b c d a' b' c' d' a'' b'' c'' d'' t (suc (suc (suc zero))) h = refl
  write_canonical a b c d a' b' c' d' a'' b'' c'' d'' t (suc (suc (suc (suc n)))) h =
      let absurd : ⊥ = omega (arith, h) in elim absurd [ ]

  -- Both observations have the canonical layout: that of the training environment, for a signal that
  -- answers every call, with SUMO's queues and densities per direction; that of the cameras with the
  -- counts for both of these, a window of 63 seconds, and nothing downstream.
  pub build-canonical :
      (ts : TrafficSignal W) (max_phase_dur now : W) (queue density down : List W)
      (b : ObservationBuilder W) (north east south west : ℕ)
      → ts.lanes_queue ≡ some queue
      → ts.lanes_density ≡ some density
      → ts.out_lanes_density ≡ some down
      → let counts : List W =
          camera_queue north ∷ camera_queue east ∷ camera_queue south ∷ camera_queue west ∷ [] in
        (canonical17 max_phase_dur ts
          ≡ some (
              canonical
                (aggregate_directions queue (f.ratio 20 1))
                (aggregate_directions density (f.ratio 1 1))
                (ts.green_phase % 4)
                (clip01 (f.div ts.time_since_last_phase_change (max_f max_phase_dur (f.ratio 1 1))))
                (aggregate_directions down (f.ratio 1 1))))
        × (build b now north east south west
            ≡ canonical counts counts
                (py_mod b.current_phase 4)
                (elapsed_in_window (f.sub now b.phase_start_time))
                (zeros 4))
  unfolding canonical17 build
  build-canonical ts max_phase_dur now queue density down b north east south west hq hd ho =
      let (q, q', q'', q''', eq) = aggregate_directions-IsFour queue (f.ratio 20 1) in
      let (d, d', d'', d''', ed) = aggregate_directions-IsFour density (f.ratio 1 1) in
      let (o, o', o'', o''', eo) = aggregate_directions-IsFour down (f.ratio 1 1) in
      let slot : ts.green_phase % 4 < 4 = omega arith in
      (
        rw (hq, hd, ho, eq, ed, eo)
            (ap (λ v. some (map clip01 v))
              (write_canonical q q' q'' q''' d d' d'' d''' o o' o'' o''' _ (ts.green_phase % 4)
                slot)),
        ap (map clip01) (
            write_canonical _ _ _ _ _ _ _ _ _ _ _ _ _ (py_mod b.current_phase 4)
              (py_mod-lt b.current_phase 4 (omega arith))),
      )
