-- ===== src/Training/Curriculum/Streaks.antt =====
-- When the stages are unlocked.
use semaforo.Prelude.{
  ℕ, suc, ◌+◌, ◌/◌, ◌≤◌, ◌<◌, ◌≡◌, refl, ap, Bool, true, false, Option, none, some, List, [], ◌∷◌,
  leb, pos, All, Bool-cases, ◌∙◌, inl, inr, arith,
}
use Prim.Native.Nat.{min}
use semaforo.Float.{Float}
use semaforo.Environments.Multi.{MultiEnv, set_curriculum_stage}
use semaforo.Training.Curriculum.{
  TrainResult, Callback, episode_return_mean, new_callback, promote, count_good, on_return,
  on_train_result, broadcast, train,
}

-- The lengths of the unbroken rows of good iterations; the first has `n` behind it.
abbrev pub streaks : ℕ → List Bool → List ℕ
streaks n [] = n ∷ []
streaks n (true ∷ bs) = streaks (n + 1) bs
streaks n (false ∷ bs) = n ∷ streaks 0 bs

-- How often a row of `n` good iterations unlocks a stage, summed over the rows.
abbrev pub unlocks : ℕ → List ℕ → ℕ
unlocks patience [] = 0
unlocks patience (n ∷ ns) = n / patience + unlocks patience ns

unlocks-streaks :
    (p n : ℕ) (bs : List Bool)
    → 0 < p
    → unlocks p (streaks (n + p) bs) ≡ suc (unlocks p (streaks n bs))
unlocks-streaks p n [] h = grind arith
unlocks-streaks p n (false ∷ bs) h = grind arith
unlocks-streaks p n (true ∷ bs) h =
    let swap : n + p + 1 ≡ n + 1 + p = omega arith in rw swap (unlocks-streaks p (n + 1) bs h)

-- A row that is complete: one stage is unlocked and a new row begins.
unlocks_complete :
    (p g : ℕ) (bs : List Bool)
    → 0 < p
    → g + 1 ≡ p
    → unlocks p (streaks (g + 1) bs) ≡ suc (unlocks p (streaks 0 bs))
unlocks_complete p g bs h e =
    let whole : g + 1 ≡ 0 + p = omega (arith, e) in rw whole (unlocks-streaks p 0 bs h)

unlocks_broken : (p g : ℕ) (ns : List ℕ) → g < p → unlocks p (g ∷ ns) ≡ unlocks p ns
unlocks_broken p g ns h = grind arith

module _ {W : Type 0} ⦃f : Float W⦄ where
  abbrev add_good : W → Option W → List Bool → List Bool
  add_good threshold none bs = bs
  add_good threshold (some ret) bs = f.le threshold ret ∷ bs

  -- Which of the iterations that report a return are good.
  abbrev pub goods : W → List (Option (TrainResult W)) → List Bool
  goods threshold [] = []
  goods threshold (none ∷ results) = goods threshold results
  goods threshold (some r ∷ results) =
      add_good threshold (episode_return_mean r) (goods threshold results)

  record Fits (c : Callback W) : Type 0 where
    some_patience : 0 < c.patience
    unfinished : c.good_iters < c.patience
    known : c.stage ≤ c.max_stage

  -- The stage that is reached if the iterations to come are `bs`.
  abbrev due : Callback W → List Bool → ℕ
  due c bs = min c.max_stage (c.stage + unlocks c.patience (streaks c.good_iters bs))

  -- Some iteration, and what it leaves.
  record Keeps (c c' : Callback W) : Type 0 where
    fits : Fits c'
    same_threshold : c'.promote_threshold ≡ c.promote_threshold

  on_return-Keeps : (ret : W) (c : Callback W) → Fits c → Keeps c (on_return (some ret) c).0
  unfolding on_return promote count_good
  on_return-Keeps ret c h = ground arith

  on_return-due :
      (ret : W) (c : Callback W) (bs : List Bool)
      → Fits c
      → due (on_return (some ret) c).0 bs ≡ due c (f.le c.promote_threshold ret ∷ bs)
  unfolding on_return promote count_good
  on_return-due ret c bs h = ground (
    arith,
    unlocks_complete c.patience c.good_iters bs,
    unlocks_broken c.patience c.good_iters (streaks 0 bs),
  )

module _ {S W : Type 0} ⦃f : Float W⦄ where
  -- Every environment is at the stage `n`.
  abbrev pub AllAt : ℕ → List (MultiEnv S W) → Type 0
  AllAt n = All (λ env. env.curriculum_stage ≡ pos n)

  set_curriculum_stage_lem :
      (n : ℕ) (env : MultiEnv S W) → (set_curriculum_stage env (pos n)).curriculum_stage ≡ pos n
  unfolding set_curriculum_stage
  set_curriculum_stage_lem n env = ground arith

  broadcast-AllAt : (n : ℕ) (envs : List (MultiEnv S W)) → AllAt n (broadcast (some n) envs)
  unfolding broadcast
  broadcast-AllAt n [] = tt
  broadcast-AllAt n (env ∷ envs) = (set_curriculum_stage_lem n env, broadcast-AllAt n envs)

  on_return-AllAt :
      (ret : W) (c : Callback W) (envs : List (MultiEnv S W))
      → AllAt c.stage envs
      → let (c', told) = on_return (some ret) c in AllAt c'.stage (broadcast told envs)
  unfolding on_return promote
  on_return-AllAt ret c envs h = elim (Bool-cases (leb c.max_stage c.stage)) [
    | inl e ↦ rw e (unfold broadcast in h)
    | inr e ↦ elim (Bool-cases (leb c.patience (count_good ret c))) [
      | inl k ↦ rw (e, k) (broadcast-AllAt (c.stage + 1) envs)
      | inr k ↦ rw (e, k) (unfold broadcast in h)
    ]
  ]

  after_return :
      (ret : Option W) (bs : List Bool) (c : Callback W) (envs : List (MultiEnv S W))
      → Fits c
      → AllAt c.stage envs
      → let (c', told) = on_return ret c in
        Keeps c c'
        × AllAt c'.stage (broadcast told envs)
        × (due c' bs ≡ due c (add_good c.promote_threshold ret bs))
  after_return none bs c envs h told =
      unfold on_return broadcast in (record { fits = h; same_threshold = refl }, told, refl)
  after_return (some ret) bs c envs h told =
      (on_return-Keeps ret c h, on_return-AllAt ret c envs told, on_return-due ret c bs h)

  train-due :
      (results : List (Option (TrainResult W))) (c : Callback W) (envs : List (MultiEnv S W))
      → Fits c
      → AllAt c.stage envs
      → let (c', envs') = train results (c, envs) in
        (c'.stage ≡ due c (goods c.promote_threshold results)) × AllAt c'.stage envs'
  unfolding train on_train_result
  train-due [] c envs h told = (ground (arith, unlocks_broken c.patience c.good_iters [], h), told)
  train-due (none ∷ results) c envs h told =
      train-due results c (broadcast none envs) h (unfold broadcast in told)
  train-due (some r ∷ results) c envs h told =
      let ret = episode_return_mean r in
      let (kept, told', same) =
        after_return ret (goods c.promote_threshold results) c envs h told in
      let c' = (on_return ret c).0 in
      let next = train-due results c' (broadcast (on_return ret c).1 envs) kept.fits told' in
      (next.0 ∙ ap (λ t. due c' (goods t results)) kept.same_threshold ∙ same, next.1)

  -- Wherever a training run stands, the stage is the number of times that the iterations were good for
  -- a whole patience on end, counted row by row, and no more than the last stage; an iteration with
  -- no return neither counts nor breaks a row. If every broadcast arrives, each environment is at
  -- that stage.
  pub train-IsUnlocked :
      (threshold : W) (patience max_stage : ℕ) (results : List (Option (TrainResult W)))
      (envs : List (MultiEnv S W))
      → 0 < patience
      → AllAt 0 envs
      → let (c, envs') = train results (new_callback threshold patience max_stage, envs) in
        (c.stage ≡ min max_stage (unlocks patience (streaks 0 (goods threshold results))))
        × AllAt c.stage envs'
  unfolding new_callback
  train-IsUnlocked threshold patience max_stage results envs h told =
      let c = new_callback threshold patience max_stage in
      let (stage, at) =
        train-due results c envs (record { some_patience = h; unfinished = h; known = omega arith })
          told in
      (stage ∙ ap (min max_stage) (omega arith), at)
