-- ===== src/Network/Emergency.antt =====
-- network/coordinator/src/emergency.py: emergency preemption. `now i` is the reading of the clock for
-- the `i`-th command of a call. A message is a list entry for each call of `client.publish`.
pub mod Route
pub mod Timing
use semaforo.Prelude.{
  ℕ, zero, suc, ◌+◌, String, Bool, true, false, Option, none, some, List, [], ◌∷◌, if◌then◌else◌,
  pos,
}
use semaforo.Prelude.Dict
use semaforo.Prelude.Dict.{Dict}
use semaforo.Prelude.Text.{◌+++◌, upper, show_int, is_empty}
use semaforo.Float.{Float, lt}
use semaforo.Network.Message.{Command, Message, command, millis}
use semaforo.Network.DiGraph.{DiGraph}
use semaforo.Network.Graph
use semaforo.Network.Graph.{GraphManager, get_edge_distance, get_edge_speed_limit, or_else}

-- PREEMPTION_DURATION_S
abbrev pub preemption_duration_s : ℕ
preemption_duration_s = 30

-- GREEN_PHASE_PREFIX
abbrev pub green_phase_prefix : String
green_phase_prefix = "EMERGENCY_GREEN"

-- TOPIC_EMERGENCY
abbrev pub topic_emergency : String
topic_emergency = "semaforo/+/emergency"

-- TOPIC_COMMAND_FMT
abbrev pub command_topic : String → String
command_topic id = "semaforo/commands/" +++ id

-- The keys of an emergency event that the handler reads, after `json.loads`.
pub record EmergencyEvent : Type 0 where
  pub emergency_id : Option String
  pub origin_intersection : Option String
  pub destination_intersection : Option String
  pub direction : Option String

pub record EmergencyHandler : Type 0 where
  pub active_emergencies : Dict (List String)

abbrev pub new_handler : EmergencyHandler
new_handler = record { active_emergencies = [] }

-- `not x` holds of an absent text and of the empty one.
abbrev pub given : Option String → Option String
given none = none
given (some x) = if is_empty x then none else some x

module _ {W : Type 0} ⦃f : Float W⦄ where
  unfoldable pub override : String → String → W → Command
  override emergency_id direction t = record {
    action = "override";
    phase = green_phase_prefix +++ "_" +++ upper direction;
    priority = "emergency";
    timestamp = millis t;
    duration_s = some preemption_duration_s;
    plan_id = some ("emergency-" +++ emergency_id);
  }

  unfoldable pub restore : String → W → Command
  restore emergency_id t = record {
    action = "set_phase";
    phase = "RESTORE_NORMAL";
    priority = "high";
    timestamp = millis t;
    duration_s = some 0;
    plan_id = some ("recovery-" +++ emergency_id);
  }

  -- A publish on the client itself, which sets no sequence number.
  abbrev pub send : String → Command → ℕ → Message W
  send id c qos = record {
    topic = command_topic id;
    payload = command c;
    sequence_number = none;
    qos = qos;
    retain = false;
  }

  -- The recovery commands, from the `i`-th on.
  unfoldable pub restore_from : String → (ℕ → W) → ℕ → List String → List (Message W)
  unfolding restore
  restore_from emergency_id now i [] = []
  restore_from emergency_id now i (id ∷ path) =
      send id (restore emergency_id (now i)) 1 ∷ restore_from emergency_id now (suc i) path

  unfoldable pub restore_path : String → (ℕ → W) → Option (List String) → List (Message W)
  unfolding restore_from
  restore_path emergency_id now none = []
  restore_path emergency_id now (some path) = restore_from emergency_id now 0 path

  unfoldable pub clear_emergency :
      String → (ℕ → W) → EmergencyHandler → EmergencyHandler × List (Message W)
  unfolding restore_path
  clear_emergency emergency_id now h = (
    record { active_emergencies = Dict.remove h.active_emergencies emergency_id },
    restore_path emergency_id now (Dict.get h.active_emergencies emergency_id),
  )

module _ {W G : Type 0} ⦃f : Float W⦄ ⦃g : DiGraph W G⦄ where
  -- The travel time between two neighbours of the path, in seconds.
  unfoldable pub travel_time : GraphManager W G → String → String → W
  travel_time m u v =
      let speed_ms = f.div (get_edge_speed_limit m u v) (f.ratio 36 10) in
      if lt (f.ratio 0 1) speed_ms then f.div (get_edge_distance m u v) speed_ms else f.ratio 0 1

  -- The delay at an intersection: the one before it and the way from there.
  unfoldable pub next_delay : GraphManager W G → Option String → String → W → W
  next_delay m none v delay = delay
  next_delay m (some u) v delay = f.add delay (travel_time m u v)

  unfoldable pub clear_from :
      GraphManager W G
      → String
      → String
      → (ℕ → W)
      → ℕ
      → Option String
      → W
      → List String
      → List (Message W)
  unfolding override
  clear_from m emergency_id direction now i prev delay [] = []
  clear_from m emergency_id direction now i prev delay (id ∷ path) =
      let delay' = next_delay m prev id delay in
      send id (override emergency_id direction (f.add (now i) delay')) 2
      ∷ clear_from m emergency_id direction now (suc i) (some id) delay' path

  unfoldable pub clear_path :
      GraphManager W G → String → String → (ℕ → W) → List String → List (Message W)
  clear_path m emergency_id direction now path =
      clear_from m emergency_id direction now 0 none (f.ratio 0 1) path

  -- With a path in hand; the empty list stands for no path.
  unfoldable pub preempt :
      GraphManager W G
      → String
      → String
      → (ℕ → W)
      → List String
      → EmergencyHandler
      → EmergencyHandler × List (Message W)
  preempt m emergency_id direction now [] h = (h, [])
  preempt m emergency_id direction now (x ∷ xs) h = (
    record { active_emergencies = Dict.put h.active_emergencies emergency_id (x ∷ xs) },
    clear_path m emergency_id direction now (x ∷ xs),
  )

  unfoldable pub process_between :
      GraphManager W G
      → String
      → String
      → (ℕ → W)
      → Option String
      → Option String
      → EmergencyHandler
      → EmergencyHandler × List (Message W)
  process_between m emergency_id direction now (some s) (some t) h =
      preempt m emergency_id direction now (Graph.shortest_path m s t) h
  process_between m emergency_id direction now _ _ h = (h, [])

  unfoldable pub process_emergency :
      GraphManager W G
      → String
      → (ℕ → W)
      → EmergencyEvent
      → EmergencyHandler
      → EmergencyHandler × List (Message W)
  unfolding process_between
  process_emergency m emergency_id now e h =
      process_between m emergency_id (or_else e.direction "north") now (given e.origin_intersection)
        (given e.destination_intersection) h

  -- `none` is a payload that is no JSON object; `t` is the reading for a default id.
  unfoldable pub on_emergency :
      GraphManager W G
      → W
      → (ℕ → W)
      → Option EmergencyEvent
      → EmergencyHandler
      → EmergencyHandler × List (Message W)
  on_emergency m t now none h = (h, [])
  on_emergency m t now (some e) h =
      process_emergency m (or_else e.emergency_id ("em-" +++ show_int (f.truncate t))) now e h
