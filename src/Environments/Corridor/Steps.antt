-- ===== src/Environments/Corridor/Steps.antt =====
-- A step of the corridor environment.
use semaforo.Prelude.{
  ℕ, suc, ◌≡◌, ◌≢◌, ◌⊎◌, Bool, Option, none, some, refl, ap, sym, ◌∙◌, true, false, List, [], ◌∷◌,
  length, length-map, All, map, if◌then◌else◌, ◌||◌, inl, inr, take, arith,
}
use semaforo.Prelude.Dict
use semaforo.Prelude.Dict.{Dict}
use semaforo.Float.{Float, IsOrdered}
use semaforo.Network.Graph.{or_else}
use semaforo.Rewards.Base.{IsPenaltyWithin}
use semaforo.Rewards.SmartDelay.{compute_smart_delay_reward-IsPenaltyWithin}
use semaforo.Environments.Corridor.{
  VecEnv, Waiting, ResetAnswer, StepAnswer, VecReply, row_rewards, is_global_done, reset, step_wait,
  observe_signals, build_observations, next_rows, observations_of,
}
use semaforo.Environments.Signal.{TrafficSignal}
use semaforo.Environments.Corridor.Rows.{IsBlock, build_observations-IsBlock}

module _ {W : Type 0} ⦃f : Float W⦄ (laws : IsOrdered W) where
  abbrev IsReward : W → Type 0
  IsReward r = IsPenaltyWithin (f.add (f.ratio 6 10) (f.ratio 4 10)) r

  row_rewards-IsReward :
      (signals : List (Waiting W)) (rows : List (List W))
      → length rows ≡ length signals
      → (length (row_rewards signals rows) ≡ length signals)
        × All IsReward (row_rewards signals rows)
  unfolding row_rewards
  row_rewards-IsReward [] rows h = (refl, tt)
  row_rewards-IsReward (s ∷ signals) [] h = cc
  row_rewards-IsReward (s ∷ signals) (row ∷ rows) h =
      let rest = row_rewards-IsReward signals rows (omega (arith, h)) in
      (
        ap suc rest.0,
        (compute_smart_delay_reward-IsPenaltyWithin laws s.1 s.0.green_phase (take 16 row), rest.1),
      )

  -- What a step replies: a row of 24 numbers from 0 to 1, a reward, an end and an information for each
  -- signal.
  pub record IsReply {I : Type 0} (n : ℕ) (reply : VecReply W I) : Type 0 where
    pub rows : (length reply.observations ≡ n) × All (IsBlock laws 24) reply.observations
    pub rewards : (length reply.rewards ≡ n) × All IsReward reply.rewards
    pub dones : length reply.dones ≡ n
    pub infos : length reply.infos ≡ n

  -- A ValueError at the end of an episode, or a reply to every signal.
  abbrev pub IsOutcome :
      {I : Type 0}
      → VecEnv W
      → StepAnswer W I
      → ResetAnswer W
      → Bool
      → Option (VecEnv W × VecReply W I)
      → Type 0
  IsOutcome env answer new over none = (over ≡ true) × (length new.raw_obs ≢ 3)
  IsOutcome env answer new over (some (env', reply)) =
      ((over ≡ false) ⊎ (length new.raw_obs ≡ 3))
      × IsReply (length env.ids) reply
      × (reply.observations
          ≡ build_observations (if over then new.signals else map (λ s. s.0) answer.signals))
      × (reply.dones ≡ map (λ id. over || or_else (Dict.get answer.dones id) false) env.ids)

  -- The rows that follow a step, where the episode ends and where it goes on.
  abbrev IsNextRows :
      Bool → List (List W) → ResetAnswer W → Option (VecEnv W × List (List W)) → Type 0
  IsNextRows over rows new none = (over ≡ true) × (length new.raw_obs ≢ 3)
  IsNextRows over rows new (some (env, rows')) =
      ((over ≡ false) ⊎ (length new.raw_obs ≡ 3))
      × (rows' ≡ (if over then build_observations new.signals else rows))

  reset-IsNextRows :
      (env : VecEnv W) (rows : List (List W)) (raw : Dict (List W))
      (signals : List (TrafficSignal W))
      → let new : ResetAnswer W = record { raw_obs = raw; signals = signals } in
        IsNextRows true rows new (reset env new)
  unfolding reset observe_signals
  reset-IsNextRows env rows [] signals = (refl, λ e. cc)
  reset-IsNextRows env rows (a ∷ []) signals = (refl, λ e. cc)
  reset-IsNextRows env rows (a ∷ b ∷ []) signals = (refl, λ e. cc)
  reset-IsNextRows env rows (a ∷ b ∷ c ∷ []) signals = (inr refl, refl)
  reset-IsNextRows env rows (a ∷ b ∷ c ∷ d ∷ more) signals = (refl, λ e. cc)

  next_rows-IsNextRows :
      (over : Bool) (env : VecEnv W) (rows : List (List W)) (new : ResetAnswer W)
      → IsNextRows over rows new (next_rows over env rows new)
  unfolding next_rows
  next_rows-IsNextRows true env rows new = reset-IsNextRows env rows new.raw_obs new.signals
  next_rows-IsNextRows false env rows new = (inl refl, refl)

  -- With as many signals as names, before and after the start of a new episode, a step replies for
  -- each signal, whatever SUMO answers, unless the episode ends and the network has not exactly three
  -- signals: then the reset of the next episode raises a ValueError. At the end of an episode the rows
  -- are those of the next one and every signal is done; otherwise the rows are those after the step,
  -- and done is who SUMO says.
  pub step_wait-IsOutcome :
      {I : Type 0} (env : VecEnv W) (sumo : Dict ℕ → StepAnswer W I) (new : ResetAnswer W)
      → length (sumo env.actions).signals ≡ length env.ids
      → length new.signals ≡ length env.ids
      → let answer = sumo env.actions in
        IsOutcome env answer new (is_global_done env.ids answer.dones) (step_wait env sumo new)
  unfolding step_wait observe_signals
  step_wait-IsOutcome {I} env sumo new h k =
      let over = is_global_done env.ids answer.dones in
      replied over _ (next_rows-IsNextRows over after rows new)
    where
      answer : StepAnswer W I
      answer = sumo env.actions

      rows : List (List W)
      rows = build_observations (map (λ s. s.0) answer.signals)

      after : VecEnv W
      after =
          (observe_signals (record env { last_obs_raw = observations_of answer.raw_obs })
            (map (λ s. s.0) answer.signals)).0

      many : length (map (λ s. s.0) answer.signals) ≡ length env.ids
      many = length-map answer.signals (λ s. s.0) ∙ h

      stepped : (length rows ≡ length env.ids) × All (IsBlock laws 24) rows
      stepped =
          let b = build_observations-IsBlock laws (map (λ s. s.0) answer.signals) in
          (b.0 ∙ many, b.1)

      fresh :
          (length (build_observations new.signals) ≡ length env.ids)
          × All (IsBlock laws 24) (build_observations new.signals)
      fresh = let b = build_observations-IsBlock laws new.signals in (b.0 ∙ k, b.1)

      paid :
          (length (row_rewards answer.signals rows) ≡ length env.ids)
          × All IsReward (row_rewards answer.signals rows)
      paid = let r = row_rewards-IsReward answer.signals rows (stepped.0 ∙ sym h) in (r.0 ∙ h, r.1)

      replied :
          (over : Bool) (o : Option (VecEnv W × List (List W)))
          → IsNextRows over rows new o
          → IsOutcome env answer new over (elim o [
            | none ↦ none
            | some (env'', rows') ↦ some (
              env'',
              record {
                observations = rows';
                rewards = row_rewards answer.signals rows;
                dones =
                    if over
                    then map (λ id. true) env.ids
                    else map (λ id. or_else (Dict.get answer.dones id) false) env.ids;
                infos = map (Dict.get answer.infos) env.ids;
              },
            )
          ])
      replied over none n = n
      replied true (some (env'', rows')) (able, e) = (
        able,
        record {
          rows = rw e fresh;
          rewards = paid;
          dones = length-map env.ids (λ id. true);
          infos = length-map env.ids (Dict.get answer.infos);
        },
        e,
        refl,
      )
      replied false (some (env'', rows')) (able, e) = (
        able,
        record {
          rows = rw e stepped;
          rewards = paid;
          dones = length-map env.ids (λ id. or_else (Dict.get answer.dones id) false);
          infos = length-map env.ids (Dict.get answer.infos);
        },
        e,
        refl,
      )
