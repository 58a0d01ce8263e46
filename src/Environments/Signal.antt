-- ===== src/Environments/Signal.antt =====
-- What the environments read of a traffic signal of sumo_rl; `none` is a call that raises.
use semaforo.Prelude.{ℕ, Option, List}

pub record TrafficSignal (W : Type 0) : Type 0 where
  pub green_phase : ℕ
  pub num_green_phases : ℕ
  pub time_since_last_phase_change : W
  pub lanes_queue : Option (List W)
  pub lanes_density : Option (List W)
  pub out_lanes_density : Option (List W)
  -- `served_downstream_occupancies(ts)`
  pub served : Option (List W)
