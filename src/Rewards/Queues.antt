-- ===== src/Rewards/Queues.antt =====
-- brain/src/rewards/pressure.py, queue_length.py and delay.py. numpy's sums are taken from the left.
use semaforo.Prelude.{String, List, Option, none, some, [], ◌∷◌, take, drop}
use semaforo.Prelude.Dict.{Dict, get}
use semaforo.Float.{Float, IsOrdered, clip01, max_f, sum_f}
use semaforo.Rewards.Base.{
  Observation, dict, array, other, IsPenalty, neg-clip-IsPenalty, zero-IsPenalty,
}

module _ {W : Type 0} ⦃f : Float W⦄ where
  -- observation.get(key, [0.0])
  abbrev pub values_at : Dict (List W) → String → List W
  values_at d key = elim (get d key) [ none ↦ f.ratio 0 1 ∷ [] | some xs ↦ xs ]

  unfoldable pub pressure_of : List W → List W → W → W
  pressure_of incoming outgoing max_queue =
      let pressure = f.sub (sum_f incoming) (sum_f outgoing) in
      f.neg (clip01 (f.div pressure (max_f max_queue (f.ratio 1 1))))

  unfoldable pub compute_pressure_reward : Observation W → String → String → W → W
  unfolding pressure_of
  compute_pressure_reward (dict d) incoming_key outgoing_key max_queue =
      pressure_of (values_at d incoming_key) (values_at d outgoing_key) max_queue
  compute_pressure_reward (array obs) incoming_key outgoing_key max_queue =
      pressure_of (take 4 obs) (take 4 (drop 4 obs)) max_queue
  compute_pressure_reward other incoming_key outgoing_key max_queue = f.ratio 0 1

  unfoldable pub compute_queue_reward : Observation W → W → W
  compute_queue_reward (dict d) max_queue =
      f.neg (clip01 (f.div (sum_f (values_at d "queue")) (max_f max_queue (f.ratio 1 1))))
  compute_queue_reward (array obs) max_queue =
      f.neg (clip01 (f.div (sum_f (take 4 obs)) (f.ratio 4 1)))
  compute_queue_reward other max_queue = f.ratio 0 1

  -- The accumulated waiting times of the lanes come from sumo_rl; `none` is an exception there.
  unfoldable pub compute_delay_reward : Option (List W) → W
  compute_delay_reward none = f.ratio 0 1
  compute_delay_reward (some wait_times) = f.neg (clip01 (f.div (sum_f wait_times) (f.ratio 500 1)))

module _ {W : Type 0} ⦃f : Float W⦄ (laws : IsOrdered W) where
  pub compute_pressure_reward-IsPenalty :
      (obs : Observation W) (incoming_key outgoing_key : String) (max_queue : W)
      → IsPenalty (compute_pressure_reward obs incoming_key outgoing_key max_queue)
  unfolding compute_pressure_reward
  compute_pressure_reward-IsPenalty (dict d) i o q = neg-clip-IsPenalty laws _
  compute_pressure_reward-IsPenalty (array x) i o q = neg-clip-IsPenalty laws _
  compute_pressure_reward-IsPenalty other i o q = zero-IsPenalty laws

  pub compute_queue_reward-IsPenalty :
      (obs : Observation W) (max_queue : W) → IsPenalty (compute_queue_reward obs max_queue)
  unfolding compute_queue_reward
  compute_queue_reward-IsPenalty (dict d) q = neg-clip-IsPenalty laws _
  compute_queue_reward-IsPenalty (array x) q = neg-clip-IsPenalty laws _
  compute_queue_reward-IsPenalty other q = zero-IsPenalty laws

  pub compute_delay_reward-IsPenalty : (w : Option (List W)) → IsPenalty (compute_delay_reward w)
  unfolding compute_delay_reward
  compute_delay_reward-IsPenalty none = zero-IsPenalty laws
  compute_delay_reward-IsPenalty (some w) = neg-clip-IsPenalty laws _
