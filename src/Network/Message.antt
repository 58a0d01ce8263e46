-- ===== src/Network/Message.antt =====
-- The JSON objects that the coordinator publishes, and the MQTT messages that carry them.
use semaforo.Prelude.{ℕ, String, Bool, List, Option, ℤ}
use semaforo.Float.{Float}

-- An object for `semaforo/commands/…`; a key that is not written is `none`.
pub record Command : Type 0 where
  pub action : String
  pub phase : String
  pub priority : String
  pub timestamp : ℤ
  pub duration_s : Option ℕ
  pub plan_id : Option String

pub record PlanEntry : Type 0 where
  pub intersection_id : String
  pub offset_s : ℕ
  pub cycle_length_s : ℕ

pub record CorridorPlan (W : Type 0) : Type 0 where
  pub corridor_id : String
  pub name : String
  pub design_speed_kmh : W
  pub intersections : List PlanEntry

pub record TimingPlan (W : Type 0) : Type 0 where
  pub plan_id : String
  pub timestamp : ℤ
  pub zone_id : String
  pub cycle_length_s : ℕ
  pub corridors : List (CorridorPlan W)
  pub source : String

pub record SyncPulse : Type 0 where
  pub timestamp : ℤ
  pub cycle_ref : ℕ
  pub zone_id : String
  pub uptime_s : ℤ

pub data Payload (W : Type 0) : Type 0 where
  command : Command → Payload W
  plan : TimingPlan W → Payload W
  pulse : SyncPulse → Payload W

-- A call of `client.publish`. `sequence_number` is the root-level key of that name, if it is set.
pub record Message (W : Type 0) : Type 0 where
  pub topic : String
  pub payload : Payload W
  pub sequence_number : Option ℕ
  pub qos : ℕ
  pub retain : Bool

-- int(t * 1000), of a clock reading in seconds
abbrev pub millis : {W : Type 0} ⦃f : Float W⦄ → W → ℤ
millis ⦃f⦄ t = f.truncate (f.mul t (f.ratio 1000 1))
