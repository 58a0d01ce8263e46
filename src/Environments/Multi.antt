-- ===== src/Environments/Multi.antt =====
-- brain/src/environments/multi_intersection.py: `Canonical17ObservationFunction`, and the
-- `MultiIntersectionEnv` with its cache of observations. SUMO is a parameter: what sumo_rl's
-- environment answers of a step is an argument. A KeyError and a failed assertion are `none`.
pub mod Cache
pub mod Steps
pub mod Episode
use semaforo.Prelude.{
  is_some, ℕ, zero, suc, ◌+◌, ◌%◌, Bool, true, false, String, Option, none, some, List, [], ◌∷◌,
  ◌++◌, map, if◌then◌else◌, set, take, ℤ, pos, leb_ℤ,
}
use semaforo.Prelude.Dict
use semaforo.Prelude.Dict.{Dict}
use semaforo.Float.{Float, max_f, clip01}
use semaforo.Network.Graph.{◌>>=◌, or_else}
use semaforo.Environments.Signal.{TrafficSignal}
use semaforo.Environments.Lanes.{zeros, aggregate_directions}
use semaforo.Environments.OwnState.{assign}
use semaforo.Environments.Actions.{clamp_actions}

-- _FIXED_OBS_SIZE
abbrev pub fixed_obs_size : ℕ
fixed_obs_size = 17

-- self.possible_agents
abbrev pub possible_agents : List String
possible_agents = "c0" ∷ "c1" ∷ "c2" ∷ []

module _ {W : Type 0} ⦃f : Float W⦄ where
  -- `max_phase_dur` is the signal's `max_green + yellow_time`. A call that raises is not caught.
  unfoldable pub canonical17 : W → TrafficSignal W → Option (List W)
  canonical17 max_phase_dur ts = do
    queue ← ts.lanes_queue
    let obs = assign (zeros 17) 0 (aggregate_directions queue (f.ratio 20 1))
    density ← ts.lanes_density
    let obs' = assign obs 4 (aggregate_directions density (f.ratio 1 1))
    let obs'' = set obs' (8 + ts.green_phase % 4) (f.ratio 1 1)
    let elapsed = clip01 (f.div ts.time_since_last_phase_change (max_f max_phase_dur (f.ratio 1 1)))
    down ← ts.out_lanes_density
    some (map clip01 (assign (set obs'' 12 elapsed) 13 (aggregate_directions down (f.ratio 1 1))))

-- An agent's observation: its own, with the state of all of them if that is asked for.
pub data Observation (W : Type 0) : Type 0 where
  local : List W → Observation W
  with_state : List W → List W → Observation W

-- `S` is sumo_rl's environment; there is none before the first reset.
pub record MultiEnv (S W : Type 0) : Type 0 where
  pub sumo : Option S
  pub agents : List String
  pub obs_cache : Dict (List W)
  pub curriculum_stage : ℤ
  pub include_global_state : Bool

-- What `SumoEnvironment.step` returns: observations are `none` where they are not a dictionary, and
-- `I` is what it says besides.
pub record Reply (W I : Type 0) : Type 0 where
  pub raw_obs : Option (Dict (List W))
  pub raw_rewards : Dict W
  pub dones : Dict Bool
  pub info : I

pub record StepResult (W I : Type 0) : Type 0 where
  pub observations : Dict (Observation W)
  pub rewards : Dict W
  pub terminations : Dict Bool
  pub truncations : Dict Bool
  pub infos : Dict I

-- {a: value(a) for a in agents}, of different agents
unfoldable pub dict_of {ℓ} : {V : Type ℓ} → (String → V) → List String → Dict V
dict_of value [] = []
dict_of value (a ∷ agents) = (a, value a) ∷ dict_of value agents

-- The same, where a value may raise.
unfoldable pub dict_from {ℓ} : {V : Type ℓ} → (String → Option V) → List String → Option (Dict V)
dict_from value [] = some []
dict_from value (a ∷ agents) = do v ← value a; rest ← dict_from value agents; some ((a, v) ∷ rest)

module _ {W : Type 0} ⦃f : Float W⦄ where
  -- The cache of `__init__` and of a reset.
  abbrev pub empty_cache : Dict (List W)
  empty_cache = dict_of (λ a. zeros fixed_obs_size) possible_agents

  -- An observation cut or filled to 17 numbers from 0 to 1.
  abbrev pub fixed_obs : List W → List W
  fixed_obs arr = map clip01 (assign (zeros fixed_obs_size) 0 (take fixed_obs_size arr))

  -- The loop of `_absorb`, over arrays that are flat.
  unfoldable pub absorb_all : Dict (List W) → Dict (List W) → Dict (List W)
  absorb_all cache [] = cache
  absorb_all cache ((agent, vec) ∷ raw_obs) =
      absorb_all
        (if is_some (Dict.get cache agent) then Dict.put cache agent (fixed_obs vec) else cache)
        raw_obs

  unfoldable pub absorb : Dict (List W) → Option (Dict (List W)) → Dict (List W)
  unfolding absorb_all
  absorb cache none = cache
  absorb cache (some raw_obs) = absorb_all cache raw_obs

  -- np.concatenate of the agents' observations
  unfoldable pub concatenate : Dict (List W) → List String → Option (List W)
  concatenate cache [] = some []
  concatenate cache (a ∷ agents) = do
    obs ← Dict.get cache a
    rest ← concatenate cache agents
    some (obs ++ rest)

module _ {S W : Type 0} ⦃f : Float W⦄ where
  -- `__init__`, as far as it is state.
  unfoldable pub init : ℤ → Bool → MultiEnv S W
  init stage include_state = record {
    sumo = none;
    agents = possible_agents;
    obs_cache = empty_cache;
    curriculum_stage = stage;
    include_global_state = include_state;
  }

  unfoldable pub global_state : MultiEnv S W → Option (List W)
  unfolding concatenate
  global_state env = concatenate env.obs_cache possible_agents

  unfoldable pub build_observations : MultiEnv S W → List String → Option (Dict (Observation W))
  unfolding dict_from global_state
  build_observations env agents =
      if env.include_global_state
      then (do
        state ← global_state env
        dict_from (λ a. Dict.get env.obs_cache a >>= (λ obs. some (with_state obs state))) agents)
      else dict_from (λ a. Dict.get env.obs_cache a >>= (λ obs. some (local obs))) agents

  -- `reset` from the new `SumoEnvironment` on: `sumo` is it after its reset, `raw_obs` what that gave.
  unfoldable pub reset :
      MultiEnv S W → S → Option (Dict (List W)) → Option (MultiEnv S W × Dict (Observation W))
  unfolding absorb build_observations
  reset env sumo raw_obs = do
    let env' : MultiEnv S W = record env {
      sumo = some sumo;
      agents = possible_agents;
      obs_cache = absorb empty_cache raw_obs;
    }
    observations ← build_observations env' env'.agents
    some (env', observations)

  unfoldable pub set_curriculum_stage : MultiEnv S W → ℤ → MultiEnv S W
  set_curriculum_stage env stage = record env {
    curriculum_stage = if leb_ℤ stage (pos 0) then pos 0 else stage;
  }

  -- `sumo_step` is `SumoEnvironment.step`, `signals` its `traffic_signals`.
  unfoldable pub step :
      {I : Type 0}
      → (S → Dict ℕ → S × Reply W I)
      → (S → Dict (TrafficSignal W))
      → MultiEnv S W
      → List (String × ℤ)
      → Option (MultiEnv S W × StepResult W I)
  unfolding absorb build_observations dict_of
  step sumo_step signals env actions = do
    sumo ← env.sumo
    let safe_actions = clamp_actions (signals sumo) actions
    let (sumo', reply) = sumo_step sumo safe_actions
    let done_all = or_else (Dict.get reply.dones "__all__") false
    let env' : MultiEnv S W = record env {
      sumo = some sumo';
      obs_cache = absorb env.obs_cache reply.raw_obs;
    }
    observations ← build_observations env' possible_agents
    some (
      record env' { agents = if done_all then [] else env'.agents },
      record {
        observations = observations;
        rewards =
            dict_of (λ a. or_else (Dict.get reply.raw_rewards a) (f.ratio 0 1)) possible_agents;
        terminations = dict_of (λ a. false) possible_agents;
        truncations = dict_of (λ a. done_all) possible_agents;
        infos = dict_of (λ a. reply.info) possible_agents;
      },
    )
