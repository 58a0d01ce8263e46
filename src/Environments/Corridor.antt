-- ===== src/Environments/Corridor.antt =====
-- brain/src/environments/corridor_env.py: what each intersection of a corridor observes, its own state
-- and a summary of its two neighbours, and `reset` and `step_wait` of the environment.
pub mod Rows
pub mod Steps
use semaforo.Prelude.{
  ℕ, zero, suc, ◌%◌, String, Bool, true, false, Option, none, some, List, [], ◌∷◌, ◌++◌, set, map,
  take, if◌then◌else◌,
}
use semaforo.Prelude.Dict
use semaforo.Prelude.Dict.{Dict}
use semaforo.Network.Graph.{or_else}
use semaforo.Rewards.SmartDelay.{compute_smart_delay_reward}
use semaforo.Float.{Float, clip01}
use semaforo.Environments.Signal.{TrafficSignal}
use semaforo.Environments.Lanes.{zeros, aggregate_corridor_directions}
use semaforo.Environments.OwnState.{at, elapsed_share, phase_slot, build_own_state}

-- `direction_to_me`: "E" or "W"
pub data Direction : Type 0 where
  east west : Direction

-- The place of the queue towards the observer.
abbrev pub queue_index : Direction → ℕ
queue_index east = 1
queue_index west = 3

module _ {W : Type 0} ⦃f : Float W⦄ where
  unfoldable pub neighbor_queue : TrafficSignal W → Direction → List W → List W
  neighbor_queue ts direction obs = elim ts.lanes_queue [
    | none ↦ obs
    | some queues ↦
        set obs 3 (at (aggregate_corridor_directions queues (f.ratio 20 1)) (queue_index direction))
  ]

  unfoldable pub build_neighbor_state : TrafficSignal W → Direction → List W
  unfolding neighbor_queue elapsed_share
  build_neighbor_state ts direction = map clip01 (
      neighbor_queue ts direction (
        set (set (zeros 4) (phase_slot ts) (f.ratio 1 1)) 2
          (elapsed_share ts.time_since_last_phase_change)))

  -- At an end of the corridor the block stays zero.
  unfoldable pub neighbor_block : Direction → Option (TrafficSignal W) → List W
  unfolding build_neighbor_state
  neighbor_block direction none = zeros 4
  neighbor_block direction (some ts) = build_neighbor_state ts direction

  abbrev pub first_of : List (TrafficSignal W) → Option (TrafficSignal W)
  first_of [] = none
  first_of (ts ∷ rest) = some ts

  -- The rows from one signal on, with the signal before it.
  unfoldable pub observation_rows :
      Option (TrafficSignal W) → List (TrafficSignal W) → List (List W)
  unfolding neighbor_block
  observation_rows prev [] = []
  observation_rows prev (ts ∷ rest) =
      (build_own_state ts ++ neighbor_block east prev ++ neighbor_block west (first_of rest))
      ∷ observation_rows (some ts) rest

  -- The signals come in the order of `_ts_ids`.
  unfoldable pub build_observations : List (TrafficSignal W) → List (List W)
  unfolding observation_rows
  build_observations signals = observation_rows none signals

-- What `_last_obs_raw` holds: the observations of a step, or what `reset` puts there.
pub data Raw (W : Type 0) : Type 0 where
  observations_of : Dict (List W) → Raw W
  key_of : String → Raw W

-- `step_async` sets `actions`.
pub record VecEnv (W : Type 0) : Type 0 where
  pub ids : List String
  pub actions : Dict ℕ
  pub phase_elapsed : Dict W
  pub last_obs_raw : Raw W

-- A traffic signal with the waiting times of its lanes, `none` if that call raises.
abbrev pub Waiting : Type 0 → Type 0
Waiting W = TrafficSignal W × Option (List W)

-- What SUMO answers of a reset: with several agents, the observations alone, a key for each signal. The
-- signals come in the order of `_ts_ids`.
pub record ResetAnswer (W : Type 0) : Type 0 where
  pub raw_obs : Dict (List W)
  pub signals : List (TrafficSignal W)

-- What it answers of a step, with some information `I` on each signal.
pub record StepAnswer (W I : Type 0) : Type 0 where
  pub raw_obs : Dict (List W)
  pub signals : List (Waiting W)
  pub dones : Dict Bool
  pub infos : Dict I

-- An information of `none` is `{}`.
pub record VecReply (W I : Type 0) : Type 0 where
  pub observations : List (List W)
  pub rewards : List W
  pub dones : List Bool
  pub infos : List (Option I)

abbrev pub is_global_done : List String → Dict Bool → Bool
is_global_done [] dones = false
is_global_done (id ∷ ids) dones = or_else (Dict.get dones "__all__") false

module _ {W : Type 0} ⦃f : Float W⦄ where
  -- `_build_own_state` notes the time that the phase was held, unless a call before raised.
  unfoldable pub note_elapsed : List String → List (TrafficSignal W) → Dict W → Dict W
  note_elapsed (id ∷ ids) (ts ∷ signals) d = note_elapsed ids signals (elim ts.lanes_queue [
    | none ↦ d
    | some _ ↦ elim ts.lanes_density [
      | none ↦ d
      | some _ ↦ Dict.put d id ts.time_since_last_phase_change
    ]
  ])
  note_elapsed _ _ d = d

  unfoldable pub observe_signals : VecEnv W → List (TrafficSignal W) → VecEnv W × List (List W)
  unfolding note_elapsed
  observe_signals env signals = (
    record env { phase_elapsed = note_elapsed env.ids signals env.phase_elapsed },
    build_observations signals,
  )

  -- raw_obs_dict, _, info_dict = d: a dictionary gives its keys, and a ValueError, `none`, unless they
  -- are three.
  abbrev pub unpack_three : Dict (List W) → Option String
  unpack_three ((k, v) ∷ b ∷ c ∷ []) = some k
  unpack_three _ = none

  unfoldable pub reset : VecEnv W → ResetAnswer W → Option (VecEnv W × List (List W))
  unfolding observe_signals
  reset env sumo = elim (unpack_three sumo.raw_obs) [
    | none ↦ none
    | some raw ↦ some (
        observe_signals
          (record env {
            last_obs_raw = key_of raw;
            phase_elapsed = map (λ id. (id, f.ratio 0 1)) env.ids;
          })
          sumo.signals)
  ]

  -- The reward of each signal, from its own part of its row.
  unfoldable pub row_rewards : List (Waiting W) → List (List W) → List W
  row_rewards ((ts, waits) ∷ signals) (row ∷ rows) =
      compute_smart_delay_reward waits ts.green_phase (take 16 row) ∷ row_rewards signals rows
  row_rewards _ _ = []

  -- The end of an episode starts the next one at once.
  unfoldable pub next_rows :
      Bool → VecEnv W → List (List W) → ResetAnswer W → Option (VecEnv W × List (List W))
  unfolding reset
  next_rows true env rows new = reset env new
  next_rows false env rows new = some (env, rows)

  -- `none` is the ValueError of the reset.
  unfoldable pub step_wait :
      {I : Type 0}
      → VecEnv W
      → (Dict ℕ → StepAnswer W I)
      → ResetAnswer W
      → Option (VecEnv W × VecReply W I)
  unfolding observe_signals row_rewards next_rows
  step_wait env sumo new =
      let answer = sumo env.actions in
      let (env', rows) =
        observe_signals (record env { last_obs_raw = observations_of answer.raw_obs })
          (map (λ s. s.0) answer.signals) in
      let over = is_global_done env.ids answer.dones in
      elim (next_rows over env' rows new) [
        | none ↦ none
        | some (env'', rows') ↦ some (
          env'',
          record {
            observations = rows';
            rewards = row_rewards answer.signals rows;
            dones =
                if over
                then map (λ id. true) env.ids
                else map (λ id. or_else (Dict.get answer.dones id) false) env.ids;
            infos = map (Dict.get answer.infos) env.ids;
          },
        )
      ]
