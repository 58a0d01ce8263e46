-- ===== src/Network/Coordinator.antt =====
-- network/coordinator/src/coordinator.py: `SequenceCounter` and `GreenWaveCoordinator`. A method takes
-- the coordinator and the clock readings that it makes, and returns the coordinator; `published` is
-- what went to the MQTT client, oldest first.
use semaforo.Prelude.{
  ℕ, ◌+◌, String, Bool, true, false, Option, none, some, List, [], ◌∷◌, ◌++◌, str_eq, if◌then◌else◌,
}
use semaforo.Prelude.Dict
use semaforo.Prelude.Dict.{Dict}
use semaforo.Float.{Float}
use semaforo.Network.Message.{Command, TimingPlan, Payload, Message, command, plan, millis}
use semaforo.Network.Graph.{GraphManager, or_else}
use semaforo.Network.Sync.{SyncService}
use semaforo.Network.Emergency.{EmergencyHandler}
use semaforo.Network.Policy.{Count, number, Telemetry, predict}
use semaforo.Network.Auditor.{ShadowAuditor, on_telemetry_received}

-- What the build and the contract file provide: the policy's session and the topic patterns.
pub record Setup (W : Type 0) : Type 0 where
  pub session : List W → Option (List W)
  pub command_topic : String → String
  pub timing_topic : String → String

-- The keys of a telemetry object that the handler reads; `none` is a key that is not there.
pub record TelemetryMsg (W : Type 0) : Type 0 where
  pub intersection_id : Option String
  pub phase : Option String
  pub total_vehicles : Option (Count W)
  pub flow_rate : Option (Count W)

pub record Coordinator (W G : Type 0) : Type 0 where
  pub running : Bool
  pub connected : Bool
  pub last_plan_time : W
  -- `SequenceCounter._next`
  pub next_sequence : ℕ
  pub telemetry : Dict (Telemetry W)
  pub graph_manager : GraphManager W G
  pub sync_service : SyncService W
  pub emergency_handler : EmergencyHandler
  pub auditor : Option (ShadowAuditor W)
  pub published : List (Message W)

module _ {W G : Type 0} where
  -- The messages of a service that publishes on the client itself.
  unfoldable pub deliver : List (Message W) → Coordinator W G → Coordinator W G
  deliver ms c = record c { published = c.published ++ ms }

  unfoldable pub publish_json : String → Payload W → ℕ → Bool → Coordinator W G → Coordinator W G
  publish_json topic payload qos retain c = record c {
    next_sequence = c.next_sequence + 1;
    published =
        c.published
        ++ record {
          topic = topic;
          payload = payload;
          sequence_number = some c.next_sequence;
          qos = qos;
          retain = retain;
        }
          ∷ [];
  }

  unfoldable pub publish_timing_plan : Setup W → TimingPlan W → Coordinator W G → Coordinator W G
  publish_timing_plan env p c = publish_json (env.timing_topic p.zone_id) (plan p) 1 true c

  unfoldable pub handle_signal : Coordinator W G → Coordinator W G
  handle_signal c = record c { running = false }

  unfoldable pub shutdown : Coordinator W G → Coordinator W G
  shutdown c = record c { running = false; connected = false }

module _ {W : Type 0} ⦃f : Float W⦄ where
  unfoldable pub build_phase_command : String → W → Command
  build_phase_command phase t = record {
    action = "CHANGE_PHASE";
    phase = phase;
    priority = "HIGH";
    timestamp = millis t;
    duration_s = none;
    plan_id = none;
  }

  unfoldable pub read_telemetry : String → TelemetryMsg W → Telemetry W
  read_telemetry node_id msg = record {
    intersection_id = or_else msg.intersection_id node_id;
    phase = or_else msg.phase "UNKNOWN";
    vehicle_count = or_else msg.total_vehicles (number (f.ratio 0 1));
    total_vehicles = or_else msg.total_vehicles (number (f.ratio 0 1));
    flow_rate = or_else msg.flow_rate (number (f.ratio 0 1));
  }

  -- The auditor's part; `none` is an exception in it, which ends the handling of the message.
  unfoldable pub audit :
      Setup W → W → W → Telemetry W → Option (ShadowAuditor W) → Option (Option (ShadowAuditor W))
  audit env t u msg none = some none
  audit env t u msg (some a) = elim (on_telemetry_received (predict env.session) t u msg a) [
    | none ↦ none
    | some a' ↦ some (some a')
  ]

module _ {W G : Type 0} ⦃f : Float W⦄ where
  unfoldable pub reply_phase :
      Setup W → String → W → Option String → Coordinator W G → Coordinator W G
  reply_phase env node_id t none c = c
  reply_phase env node_id t (some phase) c =
      publish_json (env.command_topic node_id) (command (build_phase_command phase t)) 1 false c

  unfoldable pub decide :
      Setup W
      → String
      → W
      → Telemetry W
      → Option (Option (ShadowAuditor W))
      → Coordinator W G
      → Coordinator W G
  unfolding reply_phase
  decide env node_id t msg none c = c
  decide env node_id t msg (some a) c =
      reply_phase env node_id t (predict env.session msg) (record c { auditor = a })

  -- `t` and `u` are the auditor's clock readings, `v` is the command's. `none` is a payload that is
  -- no JSON object. Every exception ends in a log line.
  unfoldable pub handle_telemetry :
      Setup W → String → Option (TelemetryMsg W) → W → W → W → Coordinator W G → Coordinator W G
  unfolding audit decide
  handle_telemetry env node_id none t u v c = c
  handle_telemetry env node_id (some msg) t u v c =
      let data_ = read_telemetry node_id msg in
      decide env node_id v data_ (audit env t u data_ c.auditor)
        (record c { telemetry = Dict.put c.telemetry data_.intersection_id data_ })

  -- The topic comes as its parts between the slashes.
  unfoldable pub on_message :
      Setup W
      → List String
      → Option (TelemetryMsg W)
      → W
      → W
      → W
      → Coordinator W G
      → Coordinator W G
  unfolding handle_telemetry
  on_message env (root ∷ channel ∷ node_id ∷ rest) msg t u v c =
      if str_eq channel "telemetry" then handle_telemetry env node_id msg t u v c else c
  on_message env _ msg t u v c = c
