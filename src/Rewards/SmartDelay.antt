-- ===== src/Rewards/SmartDelay.antt =====
-- brain/src/rewards/smart_delay.py: waiting time, and green that is given to an empty axis.
use semaforo.Prelude.{ℕ, ◌≡◌, ◌⊎◌, ◌&&◌, List, Option, if◌then◌else◌, if_ind, get_or, arith, ◌==◌}
use semaforo.Float.{Float, IsOrdered, ◌≼◌, clip01, lt}
use semaforo.Rewards.Base.{
  IsPenalty, IsPenaltyWithin, neg-clip-IsPenalty, zero-IsPenalty, mul-IsPenaltyWithin,
  add-IsPenaltyWithin,
}
use semaforo.Rewards.Queues.{compute_delay_reward, compute_delay_reward-IsPenalty}

module _ {W : Type 0} ⦃f : Float W⦄ where
  -- Queue of the axis: north and south are entries 0 and 2, east and west 1 and 3.
  abbrev pub queue_ns : List W → W
  queue_ns obs = f.add (get_or obs 0 (f.ratio 0 1)) (get_or obs 2 (f.ratio 0 1))

  abbrev pub queue_ew : List W → W
  queue_ew obs = f.add (get_or obs 1 (f.ratio 0 1)) (get_or obs 3 (f.ratio 0 1))

  unfoldable pub green_queue : ℕ → List W → W
  green_queue phase obs = if phase == 0 then queue_ns obs else queue_ew obs

  unfoldable pub red_queue : ℕ → List W → W
  red_queue phase obs = if phase == 0 then queue_ew obs else queue_ns obs

  unfoldable pub wasted_green : ℕ → List W → W
  unfolding green_queue red_queue
  wasted_green phase obs =
      if lt (green_queue phase obs) (f.ratio 2 100) && lt (f.ratio 5 100) (red_queue phase obs)
      then f.neg (clip01 (f.div (red_queue phase obs) (f.ratio 1 1)))
      else f.ratio 0 1

  -- `wait_times` and `phase` are what the traffic signal answers. The observation has at least the
  -- four queues.
  unfoldable pub compute_smart_delay_reward : Option (List W) → ℕ → List W → W
  compute_smart_delay_reward wait_times phase obs =
      f.add (f.mul (f.ratio 6 10) (compute_delay_reward wait_times))
        (f.mul (f.ratio 4 10) (wasted_green phase obs))

module _ {W : Type 0} ⦃f : Float W⦄ (laws : IsOrdered W) where
  open laws use {ratio_mono}

  wasted_green-IsPenalty : (phase : ℕ) (obs : List W) → IsPenalty (wasted_green phase obs)
  unfolding wasted_green
  wasted_green-IsPenalty phase obs =
      if_ind {A = W} IsPenalty _ (neg-clip-IsPenalty laws _) (zero-IsPenalty laws)

  -- The reward lies between minus the sum of its two weights, 0.6 and 0.4, and 0.
  pub compute_smart_delay_reward-IsPenaltyWithin :
      (wait_times : Option (List W)) (phase : ℕ) (obs : List W)
      → IsPenaltyWithin
          (f.add (f.ratio 6 10) (f.ratio 4 10))
          (compute_smart_delay_reward wait_times phase obs)
  unfolding compute_smart_delay_reward
  compute_smart_delay_reward-IsPenaltyWithin wait_times phase obs =
      add-IsPenaltyWithin laws _ _ _ _
        (mul-IsPenaltyWithin laws _ _
          (ratio_mono 0 1 6 10 (omega arith) (omega arith) (omega arith))
          (compute_delay_reward-IsPenalty laws wait_times))
        (mul-IsPenaltyWithin laws _ _
          (ratio_mono 0 1 4 10 (omega arith) (omega arith) (omega arith))
          (wasted_green-IsPenalty phase obs))

  -- Without a queue worth the name on the axis at red (at most 0.05), or with one at green (at least
  -- 0.02), whatever the phase, no green counts as wasted.
  pub wasted_green_only :
      (phase : ℕ) (obs : List W)
      → (f.ratio 2 100 ≼ green_queue phase obs) ⊎ (red_queue phase obs ≼ f.ratio 5 100)
      → wasted_green phase obs ≡ f.ratio 0 1
  unfolding wasted_green
  wasted_green_only phase obs h = ground arith
