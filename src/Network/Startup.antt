-- ===== src/Network/Startup.antt =====
-- network/coordinator/src/coordinator.py: how the coordinator starts, from the import of the module,
-- which loads the topic contract, over `GreenWaveCoordinator.__init__` to the connection, and where it
-- stops before.
pub mod Contract
pub mod Outcomes
pub mod Restart
use semaforo.Prelude.{
  ℕ, String, Bool, true, false, not, Option, none, some, List, [], ◌∷◌, if◌then◌else◌, pos_part,
}
use semaforo.Prelude.Dict
use semaforo.Prelude.Dict.{Dict}
use semaforo.Float.{Float}
use semaforo.Network.Message.{millis}
use semaforo.Network.DiGraph.{DiGraph}
use semaforo.Network.Graph.{Topology, GraphManager, load_topology}
use semaforo.Network.Sync
use semaforo.Network.Sync.{default_zone, sync_interval_s}
use semaforo.Network.Emergency.{new_handler, topic_emergency}
use semaforo.Network.Auditor.{ShadowAuditor, new_auditor}
use semaforo.Network.Coordinator.{Setup, Coordinator}

-- A RuntimeError, or an exception of another class.
pub data Error : Type 0 where
  runtime_error other_error : Error

pub data Result {ℓ} (A : Type ℓ) : Type ℓ where
  ok : A → Result A
  raised : Error → Result A

infixl 5 ◌>>=◌
abbrev pub ◌>>=◌ {ℓ κ} : {A : Type ℓ} {B : Type κ} → Result A → (A → Result B) → Result B
ok a >>= k = k a
raised e >>= k = raised e

infixl 5 ◌>>◌
abbrev pub ◌>>◌ {ℓ} : {B : Type ℓ} → Result (Unit {0}) → Result B → Result B
m >> k = m >>= λ _. k

-- What raises unless the value is there.
abbrev pub or_raise {ℓ} : {A : Type ℓ} → Option A → Error → Result A
or_raise none e = raised e
or_raise (some a) e = ok a

-- A channel of the contract, by the keys that are read; `none` is a key that is not there.
pub record Channel : Type 0 where
  pub subscribe : Option String
  pub pattern : Option String

-- The contract file: not there, no YAML or no mapping, empty, or a mapping with or without channels.
pub data ContractFile : Type 0 where
  missing unreadable empty : ContractFile
  mapping : Option (Dict Channel) → ContractFile

-- The three constants that the module takes from the contract.
pub record Topics : Type 0 where
  pub topic_telemetry : String
  pub topic_command_fmt : String
  pub topic_timing_fmt : String

-- `(contract or {}).get("channels")`, where an empty dictionary counts as none.
abbrev pub channels_of : Option (Dict Channel) → Result (Dict Channel)
channels_of none = raised runtime_error
channels_of (some []) = raised runtime_error
channels_of (some (c ∷ cs)) = ok (c ∷ cs)

abbrev pub required_channels : List String
required_channels = "telemetry" ∷ "commands" ∷ "timing" ∷ []

unfoldable pub require : Dict Channel → List String → Result (Dict Channel)
require channels [] = ok channels
require channels (name ∷ names) = elim (Dict.get channels name) [
  | none ↦ raised runtime_error
  | some _ ↦ require channels names
]

unfoldable pub load_topics : ContractFile → Result (Dict Channel)
unfolding require
load_topics missing = raised runtime_error
load_topics unreadable = raised other_error
load_topics empty = raised runtime_error
load_topics (mapping channels) = do found ← channels_of channels; require found required_channels

-- TOPICS["channels"][name], and a key of it
abbrev pub channel_key : Dict Channel → String → (Channel → Option String) → Result String
channel_key channels name key = do
  channel ← or_raise (Dict.get channels name) other_error
  or_raise (key channel) other_error

-- The constants at the top of the module.
unfoldable pub read_topics : Dict Channel → Result Topics
read_topics channels = do
  telemetry ← channel_key channels "telemetry" (λ c. c.subscribe)
  command ← channel_key channels "commands" (λ c. c.pattern)
  timing ← channel_key channels "timing" (λ c. c.pattern)
  ok (record {
    topic_telemetry = telemetry;
    topic_command_fmt = command;
    topic_timing_fmt = timing;
  })

-- The model file: not there, one that onnxruntime raises for, or a session.
pub data ModelFile (W : Type 0) : Type 0 where
  no_file : ModelFile W
  refused : Error → ModelFile W
  session : (List W → Option (List W)) → ModelFile W

-- The topology file: not there, no JSON, or a topology.
pub data TopologyFile (W : Type 0) : Type 0 where
  no_topology no_json : TopologyFile W
  topology_file : Topology W → TopologyFile W

-- The file of MQTT_TLS_CA: not set or not there, one that `tls_set` raises for, or one that it takes.
pub data CaFile : Type 0 where
  no_ca ca_refused ca_taken : CaFile

-- What the process finds. `broker` tells whether the broker is reached without an exception; `auditor` is what the auditor's
-- constructor returns or raises (a connection of its own, or none), or `none` without that class.
-- `seed` and `started` are the readings of the clock for the counter and the pulses.
pub record World (W : Type 0) : Type 0 where
  pub contract : ContractFile
  pub topology : TopologyFile W
  pub model : ModelFile W
  pub ca_file : CaFile
  pub broker : Bool
  pub auditor : Option (Result Bool)
  pub seed : W
  pub started : W

-- Whether the client uses TLS. Without a CA file it does not, and nothing is raised.
abbrev pub set_tls : CaFile → Result Bool
set_tls no_ca = ok false
set_tls ca_refused = raised other_error
set_tls ca_taken = ok true

module _ {W : Type 0} where
  -- AIPolicyWrapper()
  abbrev pub load_policy : ModelFile W → Result (List W → Option (List W))
  load_policy no_file = raised runtime_error
  load_policy (refused e) = raised e
  load_policy (session s) = ok s

module _ {W : Type 0} ⦃f : Float W⦄ where
  abbrev pub new_shadow : Option (Result Bool) → Result (Option (ShadowAuditor W))
  new_shadow none = ok none
  new_shadow (some (raised e)) = raised e
  new_shadow (some (ok connected)) = ok (some (new_auditor connected))

module _ {W G : Type 0} ⦃f : Float W⦄ ⦃g : DiGraph W G⦄ where
  -- json.load raises a ValueError and a missing key a KeyError; without the file the graph is empty.
  abbrev pub load_graph : TopologyFile W → Result (GraphManager W G)
  load_graph no_topology = or_raise (load_topology none) other_error
  load_graph no_json = raised other_error
  load_graph (topology_file file) = or_raise (load_topology (some file)) other_error

  -- The constructor once the topology is loaded. `fill` is `str.format` of a pattern with a node or a
  -- zone.
  unfoldable pub build :
      (String → String → String)
      → Topics
      → World W
      → GraphManager W G
      → Result (Bool × Setup W × Coordinator W G)
  unfolding Sync.init
  build fill topics w graph_manager = do
    tls ← set_tls w.ca_file
    policy ← load_policy w.model
    auditor ← new_shadow w.auditor
    ok (
      tls,
      record {
        session = policy;
        command_topic = fill topics.topic_command_fmt;
        timing_topic = fill topics.topic_timing_fmt;
      },
      record {
        running = false;
        connected = false;
        last_plan_time = f.ratio 0 1;
        next_sequence = pos_part (millis w.seed);
        telemetry = [];
        graph_manager = graph_manager;
        sync_service = Sync.init default_zone sync_interval_s w.started;
        emergency_handler = new_handler;
        auditor = auditor;
        published = [];
      },
    )

  unfoldable pub init :
      (String → String → String) → Topics → World W → Result (Bool × Setup W × Coordinator W G)
  unfolding build
  init fill topics w = load_graph w.topology >>= build fill topics w

-- The subscriptions with their qualities of service: `_on_connect` and `EmergencyHandler.subscribe`.
unfoldable pub on_connect : Topics → List (String × ℕ)
on_connect topics = (topics.topic_telemetry, 1) ∷ (topic_emergency, 2) ∷ []

-- How the start ends: the main loop begins, the process exits with the status 1 and one line, or an
-- exception leaves it. The flag tells whether the client uses TLS.
pub data Start (W G : Type 0) : Type 0 where
  runs : Bool → Setup W → Coordinator W G → List (String × ℕ) → Start W G
  exits traceback : Start W G

module _ {W G : Type 0} ⦃f : Float W⦄ ⦃g : DiGraph W G⦄ where
  -- `run` up to its loop.
  unfoldable pub connect : Topics → Bool → Bool × Setup W × Coordinator W G → Start W G
  unfolding on_connect
  connect topics broker (tls, env, c) =
      if broker
      then runs tls env (record c { running = true; connected = true }) (on_connect topics)
      else traceback

  unfoldable pub main : (String → String → String) → Topics → World W → Start W G
  unfolding init connect
  main fill topics w = elim (init {G = G} fill topics w) [
    | ok made ↦ connect topics w.broker made
    | raised runtime_error ↦ exits
    | raised other_error ↦ traceback
  ]

  -- python -m src.coordinator: what the import raises, nothing catches.
  unfoldable pub start : (String → String → String) → World W → Start W G
  unfolding load_topics read_topics main
  start fill w = elim (load_topics w.contract >>= read_topics) [
    | ok topics ↦ main fill topics w
    | raised _ ↦ traceback
  ]
