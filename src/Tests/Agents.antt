-- ===== src/Tests/Agents.antt =====
-- Examples of the fixed-time controller: phases of 30, 25 and 10 seconds, decided every 10 seconds.
use semaforo.Prelude.{◌≡◌, [], ◌∷◌, arith}
use semaforo.Agents.FixedTime.{FixedTimeBaseline, reset}
use semaforo.Agents.FixedTime.Cycle.{
  IsValid, actions, after, actions-reset, decisions, schedule, hold,
}

abbrev baseline : FixedTimeBaseline
baseline = record {
  phase_durations = 30 ∷ 25 ∷ 10 ∷ [];
  delta_time = 10;
  current_phase = 1;
  elapsed = 20;
}

baseline-IsValid : IsValid baseline
baseline-IsValid = record {
  positive = (omega arith, (omega arith, (omega arith, tt)));
  phase_lt = omega arith;
  elapsed_lt = omega arith;
}

actions-reset_example :
    (actions 7 (reset baseline) ≡ 0 ∷ 0 ∷ 0 ∷ 1 ∷ 1 ∷ 1 ∷ 2 ∷ [])
    × (after 7 (reset baseline) ≡ reset baseline)
unfolding decisions schedule hold
actions-reset_example =
    actions-reset baseline (omega arith) (omega arith)
      (omega arith, (omega arith, (omega arith, tt)))
