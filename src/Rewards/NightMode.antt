-- ===== src/Rewards/NightMode.antt =====
-- brain/src/rewards/night_mode.py. An observation is its queue per lane.
use semaforo.Prelude.{
  ℕ, Bool, ◌&&◌, List, Option, none, some, [], ◌∷◌, if◌then◌else◌, if_ind, ltb, length, get_or,
}
use semaforo.Float.{Float, IsOrdered, ◌≼◌, clip, clip01, max_f, lt, sum_f}
use semaforo.Float.Order.{zero-le-one, clip_bounds}
use semaforo.Rewards.Base.{IsPenalty, neg-clip-IsPenalty, zero-IsPenalty}

module _ {W : Type 0} ⦃f : Float W⦄ where
  -- The queues of the lanes that exist.
  unfoldable pub lane_queues : List W → List ℕ → List W
  lane_queues queues [] = []
  lane_queues queues (i ∷ is) =
      let rest = lane_queues queues is in
      if ltb i (length queues) then get_or queues i (f.ratio 0 1) ∷ rest else rest

  -- x == 0
  abbrev pub is_zero : W → Bool
  is_zero x = f.le x (f.ratio 0 1) && f.le (f.ratio 0 1) x

  unfoldable pub compute_night_potential : List W → List ℕ → List ℕ → W → W
  unfolding lane_queues
  compute_night_potential [] avenue_lanes cross_lanes max_queue = f.ratio 0 1
  compute_night_potential (q ∷ queues) avenue_lanes cross_lanes max_queue =
      let avenue = sum_f (lane_queues (q ∷ queues) avenue_lanes) in
      let cross = sum_f (lane_queues (q ∷ queues) cross_lanes) in
      if is_zero cross && lt (f.ratio 0 1) avenue
      then f.neg (clip01 (f.div avenue (max_f max_queue (f.ratio 1 1))))
      else f.ratio 0 1

  unfoldable pub compute_night_mode_reward : List W → List ℕ → List ℕ → Option (List W) → W → W → W
  compute_night_mode_reward obs avenue_lanes cross_lanes none gamma max_queue =
      compute_night_potential obs avenue_lanes cross_lanes max_queue
  compute_night_mode_reward obs avenue_lanes cross_lanes (some prev) gamma max_queue =
      let phi_now = compute_night_potential obs avenue_lanes cross_lanes max_queue in
      let phi_prev = compute_night_potential prev avenue_lanes cross_lanes max_queue in
      clip (f.sub (f.mul gamma phi_now) phi_prev) (f.neg (f.ratio 1 1)) (f.ratio 1 1)

module _ {W : Type 0} ⦃f : Float W⦄ (laws : IsOrdered W) where
  open laws use {le_refl, le_trans}

  compute_night_potential-IsPenalty :
      (obs : List W) (avenue cross : List ℕ) (max_queue : W)
      → IsPenalty (compute_night_potential obs avenue cross max_queue)
  unfolding compute_night_potential
  compute_night_potential-IsPenalty [] a c q = zero-IsPenalty laws
  compute_night_potential-IsPenalty (x ∷ xs) a c q =
      if_ind {A = W} IsPenalty _ (neg-clip-IsPenalty laws _) (zero-IsPenalty laws)

  minus_one-le-one : f.neg (f.ratio 1 1) ≼ f.ratio 1 1
  minus_one-le-one = le_trans _ _ _ (zero-IsPenalty laws).0 (zero-le-one laws)

  -- The potential lies in [-1, 0] and the shaping reward in [-1, 1], on a first step and on later ones.
  pub compute_night_mode_reward_bounds :
      (obs : List W) (avenue cross : List ℕ) (prev : Option (List W)) (gamma max_queue : W)
      → let r = compute_night_mode_reward obs avenue cross prev gamma max_queue in
        IsPenalty (compute_night_potential obs avenue cross max_queue)
        × (f.neg (f.ratio 1 1) ≼ r)
        × (r ≼ f.ratio 1 1)
  unfolding compute_night_mode_reward
  compute_night_mode_reward_bounds obs a c none gamma q =
      let p = compute_night_potential-IsPenalty obs a c q in
      (p, p.0, le_trans _ _ _ p.1 (zero-le-one laws))
  compute_night_mode_reward_bounds obs a c (some prev) gamma q =
      let (low, high) = clip_bounds laws _ _ _ minus_one-le-one in
      (compute_night_potential-IsPenalty obs a c q, low, high)
