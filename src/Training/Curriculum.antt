-- ===== src/Training/Curriculum.antt =====
-- brain/scripts/train_mappo.py: `CurriculumCallback`, which unlocks the stages of the curriculum, and
-- `_set_stage_on_env`, by which the environments learn of them.
pub mod Streaks
use semaforo.Prelude.{
  ℕ, ◌+◌, String, Bool, true, false, Option, none, some, List, [], ◌∷◌, map, if◌then◌else◌, leb,
  pos,
}
use semaforo.Prelude.Dict
use semaforo.Prelude.Dict.{Dict}
use semaforo.Float.{Float}
use semaforo.Environments.Multi.{MultiEnv, set_curriculum_stage}

-- RLlib's result: its own entries, and those under "env_runners". An entry_of may be null.
pub record TrainResult (W : Type 0) : Type 0 where
  pub env_runners : Dict (Option W)
  pub entries : Dict (Option W)

pub record Callback (W : Type 0) : Type 0 where
  pub promote_threshold : W
  pub patience : ℕ
  pub max_stage : ℕ
  pub stage : ℕ
  pub good_iters : ℕ

module _ {W : Type 0} where
  -- d.get(key), where a key that is not there and a null are the same.
  abbrev pub entry_of : Dict (Option W) → String → Option W
  entry_of d key = elim (Dict.get d key) [ none ↦ none | some x ↦ x ]

  abbrev pub first_some : Option W → Option W → Option W
  first_some none b = b
  first_some (some a) b = some a

  unfoldable pub episode_return_mean : TrainResult W → Option W
  episode_return_mean r = first_some (entry_of r.env_runners "episode_return_mean") (
      first_some (entry_of r.entries "episode_return_mean") (
        first_some (entry_of r.env_runners "episode_reward_mean")
          (entry_of r.entries "episode_reward_mean")))

  unfoldable pub new_callback : W → ℕ → ℕ → Callback W
  new_callback promote_threshold patience max_stage = record {
    promote_threshold = promote_threshold;
    patience = patience;
    max_stage = max_stage;
    stage = 0;
    good_iters = 0;
  }

  -- After the count: the next stage, if the patience has been reached.
  unfoldable pub promote : ℕ → Callback W → Callback W × Option ℕ
  promote good c =
      if leb c.patience good
      then (record c { stage = c.stage + 1; good_iters = 0 }, some (c.stage + 1))
      else (record c { good_iters = good }, none)

module _ {W : Type 0} ⦃f : Float W⦄ where
  unfoldable pub count_good : W → Callback W → ℕ
  count_good ret c = if f.le c.promote_threshold ret then c.good_iters + 1 else 0

  -- The stage that is to be broadcast, if the callback has promoted.
  unfoldable pub on_return : Option W → Callback W → Callback W × Option ℕ
  unfolding count_good promote
  on_return none c = (c, none)
  on_return (some ret) c =
      if leb c.max_stage c.stage then (c, none) else promote (count_good ret c) c

  unfoldable pub on_train_result : Option (TrainResult W) → Callback W → Callback W × Option ℕ
  on_train_result none c = (c, none)
  on_train_result (some result) c = on_return (episode_return_mean result) c

module _ {S W : Type 0} ⦃f : Float W⦄ where
  -- `foreach_env`
  unfoldable pub broadcast : Option ℕ → List (MultiEnv S W) → List (MultiEnv S W)
  broadcast none envs = envs
  broadcast (some stage) envs = map (λ env. set_curriculum_stage env (pos stage)) envs

  -- A training run, with the result of each iteration.
  unfoldable pub train :
      List (Option (TrainResult W))
      → Callback W × List (MultiEnv S W)
      → Callback W × List (MultiEnv S W)
  train [] state = state
  train (result ∷ results) (c, envs) =
      let (c', stage) = on_train_result result c in train results (c', broadcast stage envs)
