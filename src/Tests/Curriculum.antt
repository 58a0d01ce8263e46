-- ===== src/Tests/Curriculum.antt =====
-- Examples of the curriculum: a patience of two, and results with and without a return.
use semaforo.Prelude.{true, ℕ, ◌≡◌, refl, Option, none, some, List, [], ◌∷◌, ℤ, pos, negsuc, arith}
use Prim.Native.Nat.{min}
use semaforo.Prelude.Dict.{get}
use semaforo.Float.Fixed.{fixed}
use semaforo.Environments.Multi.{MultiEnv}
use semaforo.Training.Curriculum.{
  TrainResult, episode_return_mean, new_callback, on_train_result, on_return, train,
}
use semaforo.Training.Curriculum.Streaks.{AllAt, goods, streaks, unlocks, train-IsUnlocked}

abbrev returns : ℤ → Option (TrainResult ℤ)
returns r = some (record {
  env_runners = ("episode_return_mean", none) ∷ [];
  entries = ("episode_reward_mean", some r) ∷ [];
})

-- Good, nothing, good: a stage. Then good, bad, good: none.
abbrev results : List (Option (TrainResult ℤ))
results =
    returns (pos 0)
    ∷ none
    ∷ returns (negsuc 5)
    ∷ returns (pos 1)
    ∷ returns (negsuc 50)
    ∷ returns (pos 2)
    ∷ []

abbrev environment : MultiEnv (List ℕ) ℤ
environment = record {
  sumo = none;
  agents = [];
  obs_cache = [];
  curriculum_stage = pos 0;
  include_global_state = true;
}

train-IsUnlocked_example :
    let (c, envs) = train results (new_callback (negsuc 19) 2 2, environment ∷ []) in
    (c.stage ≡ min 2 (unlocks 2 (streaks 0 (goods (negsuc 19) results)))) × AllAt c.stage envs
train-IsUnlocked_example =
    train-IsUnlocked (negsuc 19) 2 2 results (environment ∷ []) (omega arith) (refl, tt)

results_stage : (train results (new_callback (negsuc 19) 2 2, environment ∷ [])).0.stage ≡ 1
unfolding train new_callback on_train_result on_return episode_return_mean get
results_stage = refl
