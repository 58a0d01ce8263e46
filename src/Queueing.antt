-- ===== src/Queueing.antt =====
-- brain/src/queue_theory: Webster's formulas (webster.py) and the M/D/1 queue (md1_model.py). A
-- ValueError is `none`, and `x ** 2` is `x * x`.
pub mod Greens
use semaforo.Prelude.{ℕ, List, map, Option, none, some, if◌then◌else◌, ◌&&◌, ◌||◌, length}
use semaforo.Float.{Float, lt, sum_f}

-- A stable queue: its constructor has checked the rates.
pub record Md1Queue (W : Type 0) : Type 0 where
  pub arrival_rate : W
  pub service_rate : W

module _ {W : Type 0} ⦃f : Float W⦄ where
  abbrev pub square : W → W
  square x = f.mul x x

  -- 1.0 - x
  abbrev pub rest_of_one : W → W
  rest_of_one x = f.sub (f.ratio 1 1) x

  unfoldable pub webster_optimal_cycle : W → W → Option W
  webster_optimal_cycle y_total l_total =
      if lt (f.ratio 0 1) y_total && lt y_total (f.ratio 1 1)
      then (if f.le l_total (f.ratio 0 1)
          then none
          else some
              (f.div (f.add (f.mul (f.ratio 15 10) l_total) (f.ratio 5 1)) (rest_of_one y_total)))
      else none

  -- cycle_length, green_ratio, flow_ratio and arrival_rate, in this order
  unfoldable pub webster_delay : W → W → W → W → Option W
  webster_delay c green_ratio flow_ratio arrival_rate =
      let d1 =
        f.div (f.mul c (square (rest_of_one green_ratio)))
          (f.mul (f.ratio 2 1) (rest_of_one (f.mul green_ratio flow_ratio))) in
      let d2 =
        f.div (square flow_ratio)
          (f.mul (f.mul (f.ratio 2 1) arrival_rate) (rest_of_one flow_ratio)) in
      if lt (f.ratio 0 1) green_ratio && lt green_ratio (f.ratio 1 1)
      then (if f.le (f.ratio 0 1) flow_ratio && lt flow_ratio (f.ratio 1 1)
          then (if f.le arrival_rate (f.ratio 0 1) then none else some (f.add d1 d2))
          else none)
      else none

  -- The time of a cycle that is not lost to the phases.
  abbrev pub effective_green : W → List W → W → W
  effective_green cycle_length critical_ratios lost_time_per_phase =
      f.sub cycle_length (f.mul lost_time_per_phase (f.ratio (length critical_ratios) 1))

  unfoldable pub allocate_green_times : W → List W → W → Option (List W)
  allocate_green_times cycle_length critical_ratios lost_time_per_phase =
      let green = effective_green cycle_length critical_ratios lost_time_per_phase in
      let y_total = sum_f critical_ratios in
      if f.le green (f.ratio 0 1)
      then none
      else if f.le y_total (f.ratio 0 1)
      then none
      else some (map (λ y. f.mul green (f.div y y_total)) critical_ratios)

  unfoldable pub md1_queue : W → W → Option (Md1Queue W)
  md1_queue arrival_rate service_rate =
      if f.le arrival_rate (f.ratio 0 1) || f.le service_rate (f.ratio 0 1)
      then none
      else if f.le service_rate arrival_rate
      then none
      else some (record { arrival_rate = arrival_rate; service_rate = service_rate })

  unfoldable pub utilization : Md1Queue W → W
  utilization q = f.div q.arrival_rate q.service_rate

  unfoldable pub avg_queue_length : Md1Queue W → W
  unfolding utilization
  avg_queue_length q =
      let rho = utilization q in f.div (square rho) (f.mul (f.ratio 2 1) (rest_of_one rho))

  unfoldable pub avg_delay : Md1Queue W → W
  unfolding utilization
  avg_delay q =
      let rho = utilization q in
      f.div rho (f.mul (f.mul (f.ratio 2 1) q.service_rate) (rest_of_one rho))

  unfoldable pub avg_system_time : Md1Queue W → W
  unfolding avg_delay
  avg_system_time q = f.add (avg_delay q) (f.div (f.ratio 1 1) q.service_rate)

  unfoldable pub avg_vehicles_in_system : Md1Queue W → W
  unfolding avg_queue_length
  avg_vehicles_in_system q = f.add (avg_queue_length q) (utilization q)

  unfoldable pub webster_uniform_delay : W → W → Option W
  webster_uniform_delay cycle_length green_ratio =
      if lt (f.ratio 0 1) green_ratio && lt green_ratio (f.ratio 1 1)
      then some (
          f.div (f.mul cycle_length (square (rest_of_one green_ratio)))
            (f.mul (f.ratio 2 1) (rest_of_one green_ratio)))
      else none
