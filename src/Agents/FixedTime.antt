-- ===== src/Agents/FixedTime.antt =====
-- brain/src/agents/fixed_time_baseline.py: the fixed-cycle controller. Durations and times are whole
-- seconds.
pub mod Cycle
use semaforo.Prelude.{
  ℕ, zero, suc, ◌+◌, ◌-◌, ◌*◌, ◌%◌, ◌≤◌, ◌<◌, ◌≡◌, refl, Bool, true, false, List, [], ◌∷◌, arith,
  ltb, leb, if◌then◌else◌, length, get_or, All, Option, none, some,
}

pub record FixedTimeBaseline : Type 0 where
  pub phase_durations : List ℕ
  pub delta_time : ℕ
  pub current_phase : ℕ
  pub elapsed : ℕ

-- `phase_durations or [30, 30]`: an absent list and an empty one both give the default.
unfoldable pub or_default : Option (List ℕ) → List ℕ
or_default (some (d ∷ ds)) = d ∷ ds
or_default _ = 30 ∷ 30 ∷ []

unfoldable pub init : Option (List ℕ) → ℕ → FixedTimeBaseline
unfolding or_default
init durations delta = record {
  phase_durations = or_default durations;
  delta_time = delta;
  current_phase = 0;
  elapsed = 0;
}

-- The new controller and the action. An index out of range would be Python's IndexError; it cannot
-- happen in a well-formed controller (`IsValid`), and reads 0 here.
unfoldable pub decide : FixedTimeBaseline → FixedTimeBaseline × ℕ
decide c =
    let elapsed = c.elapsed + c.delta_time in
    if leb (get_or c.phase_durations c.current_phase 0) elapsed
    then (
      record c { current_phase = (c.current_phase + 1) % length c.phase_durations; elapsed = 0 },
      c.current_phase,
    )
    else (record c { elapsed = elapsed }, c.current_phase)

unfoldable pub reset : FixedTimeBaseline → FixedTimeBaseline
reset c = record c { current_phase = 0; elapsed = 0 }

unfoldable pub num_phases : FixedTimeBaseline → ℕ
num_phases c = length c.phase_durations

abbrev pub sum : List ℕ → ℕ
sum [] = 0
sum (x ∷ xs) = x + sum xs

unfoldable pub cycle_length : FixedTimeBaseline → ℕ
cycle_length c = sum c.phase_durations
