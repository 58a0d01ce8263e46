-- ===== src/Training/Scenarios/Sane.antt =====
-- The scenarios have their knobs in the ranges that `randomize` clamps them to.
use semaforo.Prelude.{
  ℕ, zero, suc, ◌≤◌, ◌<◌, ◌≡◌, refl, String, Option, some, List, [], ◌++◌, Bool, true, ◌&&◌, leb,
  length, length-append, All, All-append, ℤ, pos, negsuc, arith,
}
use semaforo.Prelude.Dict.{Dict}
use semaforo.Float.{Float, IsOrdered, ◌≼◌, max_f, min_f}
use semaforo.Training.Scenarios.{WeatherProfile, ScenarioSpec}
use semaforo.Training.Scenarios.Worlds.{
  weather_clear, scenario, curriculum, all_scenarios, clamp_stage, stage_pool, pool_upto,
}

module _ {W : Type 0} ⦃f : Float W⦄ where
  abbrev pub Between : W → W → W → Type 0
  Between lo x hi = (lo ≼ x) × (x ≼ hi)

  -- The ranges of `randomize`.
  abbrev pub IsSane : ScenarioSpec W → Type 0
  IsSane spec =
      Between (f.ratio 10 1) spec.base_flow (f.ratio 2500 1)
      × Between (f.ratio 2 100) spec.ew_bias (f.ratio 98 100)
      × Between (f.ratio 2 100) spec.cross_ratio (f.ratio 8 10)
      × Between (f.ratio 0 1) spec.turn_ratio (f.ratio 5 10)

abbrev sane_numbers : ℕ → ℕ → ℕ → ℕ → Bool
sane_numbers base_flow ew_bias cross_ratio turn_ratio =
    leb 10 base_flow
    && leb base_flow 2500
    && leb 2 ew_bias
    && leb ew_bias 98
    && leb 2 cross_ratio
    && leb cross_ratio 80
    && leb turn_ratio 50

module _ {W : Type 0} ⦃f : Float W⦄ (laws : IsOrdered W) where
  open laws use {le_refl, le_trans, le_total, ratio_mono}

  scenario-IsSane :
      (name : String) (base_flow ew_bias cross_ratio bus_ratio turn_ratio : ℕ)
      (weather : WeatherProfile W) (jitter : Dict W)
      → sane_numbers base_flow ew_bias cross_ratio turn_ratio ≡ true
      → IsSane (scenario name base_flow ew_bias cross_ratio bus_ratio turn_ratio weather jitter)
  scenario-IsSane name b e c bus t weather jitter h =
      let n : (10 ≤ b) × (b ≤ 2500) × (2 ≤ e) × (e ≤ 98) × (2 ≤ c) × (c ≤ 80) × (t ≤ 50) =
        ground arith in
      (
        (
          ratio_mono 10 1 b 1 (omega arith) (omega arith) (omega (arith, n)),
          ratio_mono b 1 2500 1 (omega arith) (omega arith) (omega (arith, n)),
        ),
        (
          ratio_mono 2 100 e 100 (omega arith) (omega arith) (omega (arith, n)),
          ratio_mono e 100 98 100 (omega arith) (omega arith) (omega (arith, n)),
        ),
        (
          ratio_mono 2 100 c 100 (omega arith) (omega arith) (omega (arith, n)),
          ratio_mono c 100 8 10 (omega arith) (omega arith) (omega (arith, n)),
        ),
        (
          ratio_mono 0 1 t 100 (omega arith) (omega arith) (omega (arith, n)),
          ratio_mono t 100 5 10 (omega arith) (omega arith) (omega (arith, n)),
        ),
      )

  -- Only the four knobs matter.
  knobs :
      (base_flow ew_bias cross_ratio turn_ratio : ℕ)
      → sane_numbers base_flow ew_bias cross_ratio turn_ratio ≡ true
      → IsSane {W = W} (scenario "" base_flow ew_bias cross_ratio 0 turn_ratio weather_clear [])
  knobs b e c t h = scenario-IsSane "" b e c 0 t weather_clear [] h

  all_scenarios-IsSane : All {A = ScenarioSpec W} IsSane all_scenarios
  all_scenarios-IsSane = (
    knobs 120 50 30 12 refl,
    (
      knobs 25 50 40 10 refl,
      (
        knobs 500 50 28 12 refl,
        (
          knobs 450 55 25 12 refl,
          (
            knobs 1100 85 18 8 refl,
            (knobs 1050 15 20 10 refl, (knobs 550 60 30 15 refl, (knobs 1300 95 10 20 refl, tt))),
          ),
        ),
      ),
    ),
  )

  curriculum-IsSane : All {A = List (ScenarioSpec W)} (All IsSane) curriculum
  curriculum-IsSane = (
    (knobs 120 50 30 12 refl, (knobs 25 50 40 10 refl, (knobs 500 50 28 12 refl, tt))),
    (
      (knobs 500 50 28 12 refl, (knobs 450 55 25 12 refl, (knobs 1050 15 20 10 refl, tt))),
      (
        (
          knobs 1100 85 18 8 refl,
          (knobs 1050 15 20 10 refl, (knobs 550 60 30 15 refl, (knobs 1300 95 10 20 refl, tt))),
        ),
        tt,
      ),
    ),
  )

  -- The ranges are not empty.
  pub ranges :
      (f.ratio 10 1 ≼ f.ratio 2500 1)
      × (f.ratio 2 100 ≼ f.ratio 98 100)
      × (f.ratio 2 100 ≼ f.ratio 8 10)
      × (f.ratio 0 1 ≼ f.ratio 5 10)
  ranges = (
    ratio_mono 10 1 2500 1 (omega arith) (omega arith) (omega arith),
    ratio_mono 2 100 98 100 (omega arith) (omega arith) (omega arith),
    ratio_mono 2 100 8 10 (omega arith) (omega arith) (omega arith),
    ratio_mono 0 1 5 10 (omega arith) (omega arith) (omega arith),
  )

  pub min_f-max_f-Between : (lo hi x : W) → lo ≼ hi → Between lo (min_f hi (max_f lo x)) hi
  min_f-max_f-Between lo hi x h =
      ground (arith, le_total x lo, le_total hi x, le_refl lo, le_refl hi, le_total hi lo)

module _ {W : Type 0} ⦃f : Float W⦄ (laws : IsOrdered W) where
  -- A pool to draw from: it has sane scenarios only, and at least one.
  abbrev pub IsPool : Option (List (ScenarioSpec W)) → Type 0
  IsPool found =
      (pool : List (ScenarioSpec W)) × (found ≡ some pool) × (0 < length pool) × All IsSane pool

  pub stage_pool-IsPool : (i : ℕ) → i ≤ 2 → IsPool (stage_pool i)
  unfolding stage_pool
  stage_pool-IsPool zero h = (_, refl, omega arith, (curriculum-IsSane laws).0)
  stage_pool-IsPool (suc zero) h = (_, refl, omega arith, (curriculum-IsSane laws).1.0)
  stage_pool-IsPool (suc (suc zero)) h = (_, refl, omega arith, (curriculum-IsSane laws).1.1.0)
  stage_pool-IsPool (suc (suc (suc i))) h = let absurd : ⊥ = omega (arith, h) in elim absurd [ ]

  pub pool_upto-IsPool : (n : ℕ) → n ≤ 2 → IsPool (pool_upto n)
  unfolding pool_upto
  pool_upto-IsPool zero h = stage_pool-IsPool zero h
  pool_upto-IsPool (suc n) h =
      let (before, e, l, sane) = pool_upto-IsPool n (omega (arith, h)) in
      let (here, e', l', sane') = stage_pool-IsPool (suc n) h in
      (
        before ++ here,
        rw (pool_upto, e, e') refl,
        omega (arith, l, length-append before here),
        All-append IsSane before here sane sane',
      )

pub clamp_stage_le : (stage : ℤ) → clamp_stage stage ≤ 2
unfolding clamp_stage
clamp_stage_le (negsuc n) = omega arith
clamp_stage_le (pos n) = ground arith
