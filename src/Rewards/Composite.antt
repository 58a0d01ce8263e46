-- ===== src/Rewards/Composite.antt =====
-- brain/src/rewards/composite.py: the weighted sum of four penalties.
use semaforo.Prelude.{
  ℕ, List, Option, none, some, if◌then◌else◌, if_ind, arith, ◌==◌, Bool-cases, inl, inr,
}
use semaforo.Float.{Float, IsOrdered, ◌≼◌, ◌≺◌, max_f, lt}
use semaforo.Float.Order.{le_max, zero-le-one, div_nonneg}
use semaforo.Rewards.Base.{
  Observation, IsPenalty, IsPenaltyWithin, neg-IsPenalty, zero-IsPenalty, minus_one-IsPenalty,
  mul-IsPenaltyWithin, add-IsPenaltyWithin,
}
use semaforo.Rewards.Queues.{
  compute_pressure_reward, compute_queue_reward, compute_pressure_reward-IsPenalty,
  compute_queue_reward-IsPenalty,
}
use semaforo.Rewards.Spillback.{compute_spillback_penalty, compute_spillback_penalty-IsPenalty}

pub record CompositeReward (W : Type 0) : Type 0 where
  pub pressure_weight : W
  pub queue_weight : W
  pub flickering_weight : W
  pub min_green : W
  pub stability_window : W
  pub spillback_weight : W
  pub rho_crit : W

module _ {W : Type 0} ⦃f : Float W⦄ where
  -- The defaults of the constructor.
  abbrev pub default_weights : CompositeReward W
  default_weights = record {
    pressure_weight = f.ratio 5 10;
    queue_weight = f.ratio 3 10;
    flickering_weight = f.ratio 1 10;
    min_green = f.ratio 5 1;
    stability_window = f.ratio 10 1;
    spillback_weight = f.ratio 1 10;
    rho_crit = f.ratio 85 100;
  }

  -- Of a switch, by the seconds that the phase was held beyond the minimum.
  unfoldable pub switch_penalty : CompositeReward W → W → W
  switch_penalty c held =
      if lt held (f.ratio 0 1)
      then f.neg (f.ratio 1 1)
      else if f.le c.stability_window (f.ratio 0 1)
      then f.ratio 0 1
      else f.neg (max_f (f.ratio 0 1) (f.sub (f.ratio 1 1) (f.div held c.stability_window)))

  unfoldable pub flicker_penalty : CompositeReward W → ℕ → ℕ → Option W → W
  unfolding switch_penalty
  flicker_penalty c last_action current_action none = f.ratio 0 1
  flicker_penalty c last_action current_action (some held) =
      if current_action == last_action
      then f.ratio 0 1
      else switch_penalty c (f.sub held c.min_green)

  -- Pressure and queue take their default keys and maximum.
  unfoldable pub compute :
      CompositeReward W → Observation W → ℕ → ℕ → Option W → Option (List W) → W
  unfolding flicker_penalty
  compute c observation last_action current_action held downstream =
      let r_pressure = compute_pressure_reward observation "queue" "flow" (f.ratio 20 1) in
      let r_queue = compute_queue_reward observation (f.ratio 20 1) in
      let r_flicker = flicker_penalty c last_action current_action held in
      let r_spill = compute_spillback_penalty downstream c.rho_crit in
      f.add
        (f.add (f.add (f.mul c.pressure_weight r_pressure) (f.mul c.queue_weight r_queue))
          (f.mul c.flickering_weight r_flicker))
        (f.mul c.spillback_weight r_spill)

module _ {W : Type 0} ⦃f : Float W⦄ (laws : IsOrdered W) (c : CompositeReward W) where
  open laws use {le_refl, le_trans, sub_mono, sub-zero_le, le_total}

  -- No weight is negative.
  pub record IsWeighted : Type 0 where
    pub pressure : f.ratio 0 1 ≼ c.pressure_weight
    pub queue : f.ratio 0 1 ≼ c.queue_weight
    pub flickering : f.ratio 0 1 ≼ c.flickering_weight
    pub spillback : f.ratio 0 1 ≼ c.spillback_weight

  max_zero_le : (x : W) → x ≼ f.ratio 1 1 → max_f (f.ratio 0 1) x ≼ f.ratio 1 1
  max_zero_le x h = ground (arith, zero-le-one laws)

  -- Of a phase that is held for at least no time, the rest of the window is at most all of it.
  rest_le_one :
      (held : W)
      → f.ratio 0 1 ≼ held
      → f.ratio 0 1 ≺ c.stability_window
      → f.sub (f.ratio 1 1) (f.div held c.stability_window) ≼ f.ratio 1 1
  rest_le_one held h k =
      le_trans _ _ _ (sub_mono _ _ _ _ (le_refl _) (div_nonneg laws c.stability_window held k h))
        (sub-zero_le _)

  switch_penalty-IsPenalty : (held : W) → IsPenalty (switch_penalty c held)
  unfolding switch_penalty
  switch_penalty-IsPenalty held = elim (Bool-cases (lt held (f.ratio 0 1))) [
    | inl e ↦ rw e (minus_one-IsPenalty laws)
    | inr e ↦ elim (Bool-cases (f.le c.stability_window (f.ratio 0 1))) [
      | inl k ↦ rw (e, k) (zero-IsPenalty laws)
      | inr k ↦
          rw (e, k)
            (neg-IsPenalty laws _ (le_max laws _ _).0
              (max_zero_le _ (rest_le_one held (ground arith) (ground arith))))
    ]
  ]

  flicker_penalty-IsPenalty :
      (last now : ℕ) (held : Option W) → IsPenalty (flicker_penalty c last now held)
  unfolding flicker_penalty
  flicker_penalty-IsPenalty last now none = zero-IsPenalty laws
  flicker_penalty-IsPenalty last now (some held) =
      if_ind {A = W} IsPenalty _ (zero-IsPenalty laws) (switch_penalty-IsPenalty _)

  -- With weights that are not negative, the reward lies between minus their sum and 0, for every
  -- observation, actions, time held and downstream occupancies.
  pub compute-IsPenaltyWithin :
      (h : IsWeighted) (observation : Observation W) (last now : ℕ) (held : Option W)
      (downstream : Option (List W))
      → IsPenaltyWithin
          (f.add
            (f.add (f.add c.pressure_weight c.queue_weight) c.flickering_weight)
            c.spillback_weight)
          (compute c observation last now held downstream)
  unfolding compute
  compute-IsPenaltyWithin h observation last now held downstream =
      add-IsPenaltyWithin laws _ _ _ _
        (add-IsPenaltyWithin laws _ _ _ _
          (add-IsPenaltyWithin laws _ _ _ _
            (mul-IsPenaltyWithin laws _ _ h.pressure
              (compute_pressure_reward-IsPenalty laws observation _ _ _))
            (mul-IsPenaltyWithin laws _ _ h.queue
              (compute_queue_reward-IsPenalty laws observation _)))
          (mul-IsPenaltyWithin laws _ _ h.flickering (flicker_penalty-IsPenalty last now held)))
        (mul-IsPenaltyWithin laws _ _ h.spillback
          (compute_spillback_penalty-IsPenalty laws downstream _))
