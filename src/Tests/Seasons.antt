-- ===== src/Tests/Seasons.antt =====
-- Examples of the simulated days: the evening of a summer, and runs of a few answers.
use semaforo.Prelude.{ℕ, ◌≡◌, refl, true, false, Option, none, some, ℤ, arith, ◌==◌, if◌then◌else◌}
use semaforo.Float.Fixed.{fixed}
use semaforo.Traffic.Seasons.{Answer, get_probabilities, run_simulation, loop, crashed, out_of_fuel}
use semaforo.Traffic.Seasons.Injected.{IsDay, run_simulation-IsDay}

-- 20:00
summer_evening :
    get_probabilities "verano" (fixed.ratio 72_000 1)
    ≡ (fixed.ratio 1 10, fixed.ratio 1 2, fixed.ratio 1 20)
unfolding get_probabilities
summer_evening = refl

abbrev answer : Answer ℤ
answer = record {
  min_expected_number = 0;
  time = fixed.ratio 1 1;
  for_beach = record { value = fixed.ratio 0 1; accepted = true };
  for_down = record { value = fixed.ratio 0 1; accepted = false };
  for_cross = record { value = fixed.ratio 9 10; accepted = true };
}

-- The connection is lost in the third step.
abbrev answers : ℕ → Option (Answer ℤ)
answers step = if step == 2 then none else some answer

lost_connection : run_simulation (λ t. t) "verano" (fixed.ratio 10 1) answers 5 ≡ crashed
unfolding run_simulation loop
lost_connection = refl

too_little_fuel :
    run_simulation (λ t. t) "verano" (fixed.ratio 10 1) (λ step. some answer) 2 ≡ out_of_fuel
unfolding run_simulation loop
too_little_fuel = refl

run_simulation-IsDay_example :
    IsDay
      (λ step. some answer)
      (run_simulation (λ t. t) "verano" (fixed.ratio 10 1) (λ step. some answer) 86_401)
run_simulation-IsDay_example =
    run_simulation-IsDay (λ t. t) "verano" (fixed.ratio 10 1) (λ step. some answer) 86_401
      (omega arith)
