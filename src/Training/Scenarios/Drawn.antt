-- ===== src/Training/Scenarios/Drawn.antt =====
-- What an episode draws: a scenario of the right stage, with its knobs in range.
use semaforo.Prelude.{
  ℕ, zero, suc, ◌≤◌, ◌<◌, ◌≡◌, refl, String, Option, none, some, List, [], ◌∷◌, inl, inr, length,
  Bool-cases, ◌==◌, get_elem?, All, ℤ, arith, if_ind,
}
use semaforo.Prelude.Dict.{Dict}
use semaforo.Float.{Float, IsOrdered, ◌≼◌, ◌≺◌}
use semaforo.Network.Graph.{◌>>=◌, or_else}
use semaforo.Coordination.GraphModel.Heap.{Any}
use semaforo.Training.Scenarios.{ScenarioSpec, Random, jit, randomize, draw}
use semaforo.Training.Scenarios.Worlds.{
  clamp_stage, stage_pool, pool_upto, sample_scenario, weights, sample_mixed_task_scenario,
}
use semaforo.Training.Scenarios.Sane.{
  Between, IsSane, min_f-max_f-Between, ranges, stage_pool-IsPool, pool_upto-IsPool, clamp_stage_le,
}

-- What Python documents of `random.Random`: `choice` gives one of the list's elements, if it has any,
-- and so does `choices` with weights that have a positive sum, as those of a positive decay have.
pub record IsRandom {R W : Type 0} ⦃f : Float W⦄ (rng : Random R W) : Type 0 where
  pub choice_lt : (r : R) (n : ℕ) → 0 < n → (rng.choice r n).0 < n
  pub choices_lt :
      (r : R) (decay : W) (n : ℕ)
      → f.ratio 0 1 ≺ decay
      → 0 < n
      → (rng.choices r (weights decay n)).0 < n

module _ {W : Type 0} ⦃f : Float W⦄ where
  -- A place within the list holds one of its elements.
  chosen :
      (pool : List (ScenarioSpec W)) (i : ℕ)
      → i < length pool
      → All IsSane pool
      → (base : ScenarioSpec W) × (get_elem? pool i ≡ some base)
        × IsSane base
        × Any (λ s. s.name ≡ base.name) pool
  chosen [] i h all = let absurd : ⊥ = omega (arith, h) in elim absurd [ ]
  chosen (s ∷ pool) zero h all = (s, refl, all.0, inl refl)
  chosen (s ∷ pool) (suc i) h all =
      let (base, e, sane, there) = chosen pool i (omega (arith, h)) all.1 in
      (base, e, sane, inr there)

module _ {R W : Type 0} ⦃f : Float W⦄ where
  -- A scenario of the stage, by its name, with its knobs in range.
  abbrev pub IsDrawn : ℕ → Option (ScenarioSpec W × R) → Type 0
  IsDrawn stage result =
      (spec : ScenarioSpec W) × (r' : R) × (result ≡ some (spec, r'))
      × IsSane spec
      × Any (λ s. s.name ≡ spec.name) (or_else (stage_pool {W = W} stage) [])

module _ {R W : Type 0} ⦃f : Float W⦄ (laws : IsOrdered W) (rng : Random R W) where
  jit-Between :
      (jitter : Dict W) (value : W) (key : String) (lo hi : W) (r : R)
      → lo ≼ hi
      → Between lo value hi
      → Between lo (jit rng jitter value key lo hi r).0 hi
  unfolding jit
  jit-Between jitter value key lo hi r h b =
      if_ind {A = W × R} (λ p. Between lo p.0 hi) _ b (min_f-max_f-Between laws lo hi _ h)

  randomize-IsSane : (spec : ScenarioSpec W) (r : R) → IsSane spec → IsSane (randomize rng spec r).0
  unfolding randomize
  randomize-IsSane spec r (b, e, c, t) =
      let (h, k, l, m) = ranges laws in
      (
        jit-Between _ _ _ _ _ _ h b,
        jit-Between _ _ _ _ _ _ k e,
        jit-Between _ _ _ _ _ _ l c,
        jit-Between _ _ _ _ _ _ m t,
      )

  draw-IsSane :
      (pool : List (ScenarioSpec W)) (r : R)
      → IsRandom rng
      → 0 < length pool
      → All IsSane pool
      → (spec : ScenarioSpec W) × (r' : R) × (draw rng pool r ≡ some (spec, r'))
        × IsSane spec
        × Any (λ s. s.name ≡ spec.name) pool
  unfolding draw randomize
  draw-IsSane pool r random h all =
      let (base, e, sane, there) =
        chosen pool (rng.choice r (length pool)).0 (random.choice_lt r (length pool) h) all in
      let drawn = randomize rng base (rng.choice r (length pool)).1 in
      (drawn.0, drawn.1, rw (draw, e) refl, randomize-IsSane base _ sane, there)

module _ {R W : Type 0} ⦃f : Float W⦄ (laws : IsOrdered W) (rng : Random R W) where
  -- For any stage, also a negative or too large one, an episode gets a scenario: it is one of those of
  -- the stages up to it, by its name, with its knobs in the ranges that `randomize` keeps to.
  pub sample_scenario-IsSane :
      (stage : ℤ) (r : R)
      → IsRandom rng
      → (pool : List (ScenarioSpec W)) × (spec : ScenarioSpec W) × (r' : R) × (pool_upto
            (clamp_stage stage)
          ≡ some pool)
        × (sample_scenario rng (some stage) none r ≡ some (spec, r'))
        × IsSane spec
        × Any (λ s. s.name ≡ spec.name) pool
  unfolding sample_scenario
  sample_scenario-IsSane stage r random =
      let (pool, e, l, sane) = pool_upto-IsPool laws (clamp_stage stage) (clamp_stage_le stage) in
      let (spec, r', e', sane', there) = draw-IsSane laws rng pool r random l sane in
      (pool, spec, r', e, rw (sample_scenario, e) e', sane', there)

  draw_stage :
      (i : ℕ) (r : R)
      → IsRandom rng
      → i ≤ 2
      → IsDrawn i (stage_pool i >>= (λ pool. sample_scenario rng none (some pool) r))
  unfolding sample_scenario
  draw_stage i r random h =
      let (pool, e, l, sane) = stage_pool-IsPool laws i h in
      let (spec, r', e', sane', there) = draw-IsSane laws rng pool r random l sane in
      (spec, r', rw (e, sample_scenario) e', sane', rw e there)

  -- With a decay above 0, the mixture of stages always gives a scenario, from the current stage or
  -- from one before it, with its knobs in range.
  pub sample_mixed_task_scenario-IsDrawn :
      (stage : ℤ) (rehearsal_ratio decay : W) (r : R)
      → IsRandom rng
      → f.ratio 0 1 ≺ decay
      → (k : ℕ) × (k ≤ clamp_stage stage)
        × IsDrawn k (sample_mixed_task_scenario rng stage rehearsal_ratio decay r)
  unfolding sample_mixed_task_scenario
  sample_mixed_task_scenario-IsDrawn stage rehearsal_ratio decay r random h =
      let current = clamp_stage stage in
      let bound = clamp_stage_le stage in
      elim (Bool-cases (current == 0)) [
        | inl e ↦ (
          current,
          omega arith,
          rw (sample_mixed_task_scenario, e) (draw_stage current r random bound),
        )
        | inr e ↦ elim (Bool-cases (f.le rehearsal_ratio (rng.random r).0)) [
          | inl k ↦ (
            current,
            omega arith,
            rw (sample_mixed_task_scenario, e, k)
                (draw_stage current (rng.random r).1 random bound),
          )
          | inr k ↦
              let past = (rng.choices (rng.random r).1 (weights decay current)).0 in
              let less = random.choices_lt (rng.random r).1 decay current h (ground (arith, e)) in
              (
                past,
                omega (arith, less),
                rw (sample_mixed_task_scenario, e, k)
                    (draw_stage past _ random (omega (arith, less, bound))),
              )
        ]
      ]
