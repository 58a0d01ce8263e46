-- ===== src/Environments/Single.antt =====
-- `reset`, `step` and `_compute_reward` of `SingleIntersectionEnv`
-- (brain/src/environments/single_intersection.py), with what they keep of the episode. SUMO's answers
-- and the readings of the clock are arguments.
pub mod Episodes
use semaforo.Prelude.{
  ℕ, suc, ◌+◌, String, Option, none, some, List, if◌then◌else◌, Bool, ◌||◌, str_eq,
}
use semaforo.Float.{Float}
use semaforo.Network.Graph.{or_else}
use semaforo.Environments.Signal.{TrafficSignal}
use semaforo.Environments.Actions.{correct_action}
use semaforo.Environments.OwnState.{transform_observation}
use semaforo.Rewards.Base.{array}
use semaforo.Rewards.Queues.{compute_pressure_reward, compute_queue_reward, compute_delay_reward}
use semaforo.Rewards.SmartDelay.{compute_smart_delay_reward}
use semaforo.Rewards.Composite.{default_weights, compute}

pub record SingleEnv (W : Type 0) : Type 0 where
  pub reward_fn_name : String
  pub last_action : Option ℕ
  pub phase_elapsed : Option W
  pub served_downstream : Option (List W)
  pub episode_count : ℕ
  pub step_count : ℕ
  pub cumulative_reward : W
  pub episode_start_time : W

-- What `SumoEnvironment.step` answers, and its traffic signal after the step with the waiting times
-- of its lanes, which are `none` if that call raises.
pub record SumoAnswer (W : Type 0) : Type 0 where
  pub raw_obs : List W
  pub raw_reward : W
  pub terminated : Bool
  pub truncated : Bool
  pub signal : TrafficSignal W
  pub wait_times : Option (List W)

-- The entries `step`, `cumulative_reward` and, at the end, `episode` of `info`.
pub record EpisodeInfo (W : Type 0) : Type 0 where
  pub total_reward : W
  pub steps : ℕ
  pub elapsed : W

pub record StepInfo (W : Type 0) : Type 0 where
  pub step_number : ℕ
  pub cumulative : W
  pub episode : Option (EpisodeInfo W)

pub record StepReply (W : Type 0) : Type 0 where
  pub observation : List W
  pub reward : W
  pub terminated : Bool
  pub truncated : Bool
  pub info : StepInfo W

-- A step to come: the signal before it, SUMO's answers, the action, and the clock.
abbrev pub Move : Type 0 → Type 0
Move W = TrafficSignal W × (ℕ → SumoAnswer W) × ℕ × W

module _ {W : Type 0} ⦃f : Float W⦄ where
  unfoldable pub init : String → SingleEnv W
  init reward_fn = record {
    reward_fn_name = reward_fn;
    last_action = none;
    phase_elapsed = none;
    served_downstream = none;
    episode_count = 0;
    step_count = 0;
    cumulative_reward = f.ratio 0 1;
    episode_start_time = f.ratio 0 1;
  }

  -- `_transform_observation` sets the time that the phase was held, unless a call before raised.
  unfoldable pub elapsed_after : TrafficSignal W → Option W → Option W
  elapsed_after ts before = elim ts.lanes_queue [
    | none ↦ before
    | some _ ↦ elim ts.lanes_density [
      | none ↦ before
      | some _ ↦ some ts.time_since_last_phase_change
    ]
  ]

  -- It sets the occupancies downstream too, to none when any call raised.
  unfoldable pub served_after : TrafficSignal W → Option (List W)
  served_after ts = elim ts.lanes_queue [
    | none ↦ none
    | some _ ↦ elim ts.lanes_density [
      | none ↦ none
      | some _ ↦ elim ts.out_lanes_density [ none ↦ none | some _ ↦ ts.served ]
    ]
  ]

  unfoldable pub observe : SingleEnv W → List W → TrafficSignal W → SingleEnv W × List W
  unfolding elapsed_after served_after
  observe env raw ts = (
    record env {
      phase_elapsed = elapsed_after ts env.phase_elapsed;
      served_downstream = served_after ts;
    },
    transform_observation raw ts,
  )

  -- `raw` and `ts` are SUMO's after its own reset, `now` is `time.monotonic()`.
  unfoldable pub reset : SingleEnv W → List W → TrafficSignal W → W → SingleEnv W × List W
  unfolding observe
  reset env raw ts now =
      observe
        (record env {
          last_action = none;
          phase_elapsed = none;
          served_downstream = none;
          step_count = 0;
          cumulative_reward = f.ratio 0 1;
          episode_start_time = now;
        })
        raw ts

  unfoldable pub compute_reward : SingleEnv W → List W → ℕ → SumoAnswer W → W
  compute_reward env obs action answer =
      if str_eq env.reward_fn_name "pressure"
      then compute_pressure_reward (array obs) "queue" "flow" (f.ratio 20 1)
      else if str_eq env.reward_fn_name "queue"
      then compute_queue_reward (array obs) (f.ratio 20 1)
      else if str_eq env.reward_fn_name "delay"
      then compute_delay_reward answer.wait_times
      else if str_eq env.reward_fn_name "smart_delay"
      then compute_smart_delay_reward answer.wait_times answer.signal.green_phase obs
      else if str_eq env.reward_fn_name "composite"
      then compute default_weights (array obs) (or_else env.last_action action) action
          env.phase_elapsed env.served_downstream
      else answer.raw_reward

  -- `ts` is the traffic signal before the step, `sumo` what SUMO answers of an action.
  unfoldable pub step :
      SingleEnv W → TrafficSignal W → (ℕ → SumoAnswer W) → ℕ → W → SingleEnv W × StepReply W
  unfolding observe compute_reward
  step env ts sumo action now =
      let action' = correct_action ts.green_phase ts.num_green_phases action in
      let answer = sumo action' in
      let (env', obs) = observe env answer.raw_obs answer.signal in
      let reward = compute_reward env' obs action' answer in
      let done = answer.terminated || answer.truncated in
      let total = f.add env.cumulative_reward reward in
      let steps = env.step_count + 1 in
      (
        record env' {
          last_action = some action';
          step_count = steps;
          cumulative_reward = total;
          episode_count = if done then env.episode_count + 1 else env.episode_count;
        },
        record {
          observation = obs;
          reward = reward;
          terminated = answer.terminated;
          truncated = answer.truncated;
          info = record {
            step_number = steps;
            cumulative = total;
            episode =
                if done
                then some (record {
                  total_reward = total;
                  steps = steps;
                  elapsed = f.sub now env.episode_start_time;
                })
                else none;
          };
        },
      )
