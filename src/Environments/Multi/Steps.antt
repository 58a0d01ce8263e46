-- ===== src/Environments/Multi/Steps.antt =====
-- What the corridor environment reports, over resets and steps in any order.
use mathlib.Core.Path.{subst}
use mathlib.Core.Option.{some-injective}
use semaforo.Prelude.{
  ℕ, ◌≡◌, refl, Bool, false, String, Option, none, some, List, [], map, Option-cases, inl, inr, ◌∙◌,
  sym, arith, if◌then◌else◌, ℤ,
}
use semaforo.Prelude.Dict.{Dict, get}
use semaforo.Float.{Float, IsOrdered}
use semaforo.Network.Graph.{or_else}
use semaforo.Environments.Signal.{TrafficSignal}
use semaforo.Environments.Actions.{clamp_actions}
use semaforo.Environments.Multi.{
  MultiEnv, Reply, StepResult, Observation, possible_agents, empty_cache, dict_of, absorb, init,
  reset, set_curriculum_stage, step,
}
use semaforo.Environments.Multi.Cache.{
  IsCached, IsReported, absorb-IsCached, empty_cache-IsCached, build_observations-IsReported,
}

module _ {S W I : Type 0} ⦃f : Float W⦄ (sumo_step : S → Dict ℕ → S × Reply W I)
    (signals : S → Dict (TrafficSignal W)) where
  -- The states that a new environment comes to.
  pub data Reachable : MultiEnv S W → Type 0 where
    new : (stage : ℤ) (include_state : Bool) → Reachable (init stage include_state)
    after_reset :
        {env env' : MultiEnv S W} (sumo : S) (raw_obs : Option (Dict (List W)))
        (d : Dict (Observation W))
        → Reachable env
        → reset env sumo raw_obs ≡ some (env', d)
        → Reachable env'
    after_step :
        {env env' : MultiEnv S W} (actions : List (String × ℤ)) (r : StepResult W I)
        → Reachable env
        → step sumo_step signals env actions ≡ some (env', r)
        → Reachable env'
    after_stage :
        {env : MultiEnv S W} (stage : ℤ)
        → Reachable env
        → Reachable (set_curriculum_stage env stage)

  -- What a step reports: on every agent, whoever acted, and the end of the episode on all of them at
  -- once, which leaves no agent.
  abbrev pub StepReports :
      MultiEnv S W → S → List (String × ℤ) → MultiEnv S W → StepResult W I → Type 0
  StepReports env sumo actions env' r =
      let done =
        or_else (get (sumo_step sumo (clamp_actions (signals sumo) actions)).1.dones "__all__")
          false in
      IsReported env.include_global_state r.observations
      × (map (λ e. e.0) r.rewards ≡ possible_agents)
      × (r.terminations ≡ dict_of (λ a. false) possible_agents)
      × (r.truncations ≡ dict_of (λ a. done) possible_agents)
      × (env'.agents ≡ (if done then [] else env.agents))

none_ne : {A : Type 0} (a : A) → none ≡ some a → ⊥
none_ne a e = ground arith

module _ {S W I : Type 0} ⦃f : Float W⦄ (laws : IsOrdered W)
    (sumo_step : S → Dict ℕ → S × Reply W I) (signals : S → Dict (TrafficSignal W)) where
  reset_lem :
      (env : MultiEnv S W) (sumo : S) (raw_obs : Option (Dict (List W)))
      → (env' : MultiEnv S W) × (d : Dict (Observation W)) × (reset env sumo raw_obs
          ≡ some (env', d))
        × IsCached env'.obs_cache
        × IsReported env.include_global_state d
        × (env'.agents ≡ possible_agents)
  unfolding reset
  reset_lem env sumo raw_obs =
      let env' : MultiEnv S W = record env {
        sumo = some sumo;
        agents = possible_agents;
        obs_cache = absorb empty_cache raw_obs;
      } in
      let cached = absorb-IsCached laws empty_cache raw_obs (empty_cache-IsCached laws) in
      let (d, e, k) = build_observations-IsReported env' cached in
      (env', d, rw (reset, e) refl, cached, k, refl)

  step_lem :
      (env : MultiEnv S W) (sumo : S) (actions : List (String × ℤ))
      → env.sumo ≡ some sumo
      → IsCached env.obs_cache
      → (env' : MultiEnv S W) × (r : StepResult W I) × (step sumo_step signals env actions
          ≡ some (env', r))
        × IsCached env'.obs_cache
        × StepReports sumo_step signals env sumo actions env' r
  unfolding step dict_of
  step_lem env sumo actions s h =
      let (sumo', reply) = sumo_step sumo (clamp_actions (signals sumo) actions) in
      let cached = absorb-IsCached laws env.obs_cache reply.raw_obs h in
      let env' : MultiEnv S W = record env {
        sumo = some sumo';
        obs_cache = absorb env.obs_cache reply.raw_obs;
      } in
      let (d, e, k) = build_observations-IsReported env' cached in
      let done = or_else (get reply.dones "__all__") false in
      let r : StepResult W I = record {
        observations = d;
        rewards = dict_of (λ a. or_else (get reply.raw_rewards a) (f.ratio 0 1)) possible_agents;
        terminations = dict_of (λ a. false) possible_agents;
        truncations = dict_of (λ a. done) possible_agents;
        infos = dict_of (λ a. reply.info) possible_agents;
      } in
      (
        record env' { agents = if done then [] else env.agents },
        r,
        rw (step, s, e) refl,
        cached,
        (k, refl, refl, refl, refl),
      )

  step-IsCached :
      (env env' : MultiEnv S W) (actions : List (String × ℤ)) (r : StepResult W I)
      → IsCached env.obs_cache
      → step sumo_step signals env actions ≡ some (env', r)
      → IsCached env'.obs_cache
  unfolding step
  step-IsCached env env' actions r h e = elim (Option-cases env.sumo) [
    | inl k ↦
        let absurd : none ≡ some (env', r) = rw (step, k) at e in
        elim (none_ne (env', r) absurd) [ ]
    | inr (sumo, k) ↦
        let (env'', r', e', cached, reports) = step_lem env sumo actions k h in
        subst (λ (p : MultiEnv S W × StepResult W I). IsCached p.0.obs_cache)
          (some-injective (env'', r') (env', r) (sym e' ∙ e)) cached
  ]

  -- However a new environment is reset and stepped, its cache has 17 numbers from 0 to 1 for each of
  -- the three agents, whatever SUMO answers.
  pub Reachable-IsCached :
      {env : MultiEnv S W} → Reachable sumo_step signals env → IsCached env.obs_cache
  unfolding init set_curriculum_stage
  Reachable-IsCached (new stage include_state) = empty_cache-IsCached laws
  Reachable-IsCached (after_reset {env} {env'} sumo raw_obs d h e) =
      let (env'', d', e', cached, reports, everyone) = reset_lem env sumo raw_obs in
      subst (λ (p : MultiEnv S W × Dict (Observation W)). IsCached p.0.obs_cache)
        (some-injective (env'', d') (env', d) (sym e' ∙ e)) cached
  Reachable-IsCached (after_step {env} {env'} actions r h e) =
      step-IsCached env env' actions r (Reachable-IsCached h) e
  Reachable-IsCached (after_stage stage h) = Reachable-IsCached h

  -- After a reset, in any state that the environment comes to, a step succeeds whatever SUMO answers:
  -- it observes every agent with 17 numbers from 0 to 1 (and the state of 51 if that is asked for),
  -- gives each of them a reward, terminates none, and truncates all when SUMO is done, which leaves
  -- no agents.
  pub step-StepReports :
      (env : MultiEnv S W) (sumo : S) (actions : List (String × ℤ))
      → Reachable sumo_step signals env
      → env.sumo ≡ some sumo
      → (env' : MultiEnv S W) × (r : StepResult W I) × (step sumo_step signals env actions
          ≡ some (env', r))
        × StepReports sumo_step signals env sumo actions env' r
  step-StepReports env sumo actions h s =
      let (env', r, e, cached, reports) = step_lem env sumo actions s (Reachable-IsCached h) in
      (env', r, e, reports)
