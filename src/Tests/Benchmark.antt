-- ===== src/Tests/Benchmark.antt =====
-- Examples of the benchmark: a simulation with as many vehicles left as its state says, which loses
-- the connection in the state 1 when it counts the vehicles of the second traffic light.
use semaforo.Prelude.{ℕ, ◌-◌, ◌≡◌, refl, [], ◌∷◌, str_eq, if◌then◌else◌, ◌&&◌, ◌==◌}
use semaforo.Training.Benchmark.{
  Traci, answered, fatal, SimMetrics, run_simulation, returned, loop, round, sample_all, sample,
  count_waiting, count_queue, distinct, sum_lanes, append_at, finish,
}
use semaforo.Training.Benchmark.Runs.{IsAccounted, Fails, finishes, run_simulation-IsAccounted}

instance abbrev countdown : Traci ℕ
countdown = record {
  min_expected_number = λ s. answered s;
  simulation_step = λ s. answered (s - 1);
  arrived_number = λ s. answered 1;
  controlled_lanes = λ s tl. answered (tl ∷ "side" ∷ tl ∷ []);
  halting_number = λ s lane. answered 2;
  vehicle_number = λ s lane. if (s == 1) && str_eq lane "c1" then fatal else answered 3;
}

abbrev lost : SimMetrics
lost = record {
  name = "fixed";
  total_vehicles_arrived = 2;
  total_waiting_time = 20;
  total_queue_samples = 4;
  total_queue_sum = 24;
  simulation_steps = 2;
  per_tl_waiting = ("c0", 4 ∷ 4 ∷ []) ∷ ("c1", 4 ∷ 4 ∷ []) ∷ ("c2", 4 ∷ []) ∷ [];
  per_tl_queue = ("c0", 6 ∷ 6 ∷ []) ∷ ("c1", 6 ∷ []) ∷ ("c2", 6 ∷ []) ∷ [];
}

run_lost : run_simulation {S = ℕ} 4 "fixed" 3 ≡ returned lost
unfolding run_simulation loop round sample_all sample count_waiting count_queue distinct sum_lanes
    append_at finish
run_lost = refl

run_simulation-IsAccounted_example :
    IsAccounted ((s : ℕ) × Fails s) (run_simulation {S = ℕ} 4 "fixed" 3)
unfolding finishes
run_simulation-IsAccounted_example = run_simulation-IsAccounted 3 "fixed" 3 refl
