-- ===== src/Vision.antt =====
-- brain/src/vision/obs_builder.py: `ObservationBuilder`, which turns the counts of four cameras into
-- the observation that the deployed policy reads. `now` is what `time.time()` returns.
pub mod Layout
pub mod Harness
use semaforo.Prelude.{ℕ, ◌+◌, List, [], ◌∷◌, map, set, if◌then◌else◌, ℤ, leb_ℤ, Bool, ◌&&◌, py_mod}
use semaforo.Float.{Float, min_f, clip01}
use semaforo.Environments.Lanes.{zeros}
use semaforo.Environments.OwnState.{assign}

pub record ObservationBuilder (W : Type 0) : Type 0 where
  pub current_phase : ℤ
  pub phase_start_time : W

abbrev pub same_phase : ℤ → ℤ → Bool
same_phase a b = leb_ℤ a b && leb_ℤ b a

module _ {W : Type 0} where
  unfoldable pub init : ℤ → W → ObservationBuilder W
  init initial_phase now = record { current_phase = initial_phase; phase_start_time = now }

  -- Only another phase starts the clock again.
  unfoldable pub set_phase : ObservationBuilder W → ℤ → W → ObservationBuilder W
  set_phase b phase now =
      if same_phase phase b.current_phase
      then b
      else record { current_phase = phase; phase_start_time = now }

module _ {W : Type 0} ⦃f : Float W⦄ where
  -- min(count / _MAX_VEHICLES_PER_CAMERA, 1.0)
  abbrev pub camera_queue : ℕ → W
  camera_queue count = min_f (f.ratio count 20) (f.ratio 1 1)

  -- np.clip(elapsed / _PHASE_ELAPSED_WINDOW_S, 0.0, 1.0)
  abbrev pub elapsed_in_window : W → W
  elapsed_in_window elapsed = clip01 (f.div elapsed (f.ratio 63 1))

  unfoldable pub build : ObservationBuilder W → W → ℕ → ℕ → ℕ → ℕ → List W
  build b now count_north count_east count_south count_west =
      let q_n = camera_queue count_north in
      let q_e = camera_queue count_east in
      let q_s = camera_queue count_south in
      let q_w = camera_queue count_west in
      let obs = set (set (set (set (zeros 17) 0 q_n) 1 q_e) 2 q_s) 3 q_w in
      let obs' = set (set (set (set obs 4 q_n) 5 q_e) 6 q_s) 7 q_w in
      let obs'' = set obs' (8 + py_mod b.current_phase 4) (f.ratio 1 1) in
      let elapsed = f.sub now b.phase_start_time in
      map clip01 (assign (set obs'' 12 (elapsed_in_window elapsed)) 13 (zeros 4))
