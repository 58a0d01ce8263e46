-- ===== src/Tests/Startup.antt =====
-- Examples of the coordinator's start: one that runs, and one for each other end.
use semaforo.Prelude.{
  ℕ, ◌*◌, ◌≡◌, refl, String, true, false, none, some, List, [], ◌∷◌, ◌++◌, ℤ, arith,
}
use semaforo.Prelude.Dict
use semaforo.Prelude.Dict.{Dict}
use semaforo.Prelude.Text.{◌+++◌}
use semaforo.Float.Fixed.{fixed}
use semaforo.Network.Coordinator.{
  Setup, Coordinator, on_message, handle_telemetry, read_telemetry, audit, decide, reply_phase,
  publish_json, build_phase_command,
}
use semaforo.Network.Graph.{
  load_topology, load_intersections, load_intersection, load_roads, load_road, add_road_edges,
  road_attrs,
}
use semaforo.Network.MainLoop.{Event, message, run, dispatch}
use semaforo.Network.MainLoop.Numbers.{numbered}
use semaforo.Network.Startup.{
  Channel, missing, mapping, no_file, session, World, topology_file, no_ca, Start, runs, exits,
  traceback, start, main, connect, on_connect, init, build, load_topics, read_topics, require,
}
use semaforo.Network.Startup.Outcomes.{IsExplained, start-IsExplained}
use semaforo.Network.Startup.Restart.{Increasing, restart-Increasing}
use semaforo.Network.Sync
use semaforo.Network.Sync.{default_zone, sync_interval_s}
use semaforo.Network.Emergency.{new_handler}
use semaforo.Network.Policy.{predict}
use semaforo.Tests.Roads.{RoadList, road_list, three_in_a_row, row_manager}
use semaforo.Tests.Coordinator.{telemetry_msg}

abbrev contract : Dict Channel
contract =
    ("telemetry", record { subscribe = some "semaforo/telemetry/+"; pattern = none })
    ∷ ("commands", record { subscribe = none; pattern = some "semaforo/commands/" })
    ∷ ("timing", record { subscribe = none; pattern = some "semaforo/timing/" })
    ∷ []

-- The clock shows `seconds`.
abbrev world : ℕ → World ℤ
world seconds = record {
  contract = mapping (some contract);
  topology = topology_file three_in_a_row;
  model = session (λ obs. some (fixed.ratio 1 1 ∷ fixed.ratio 2 1 ∷ []));
  ca_file = no_ca;
  broker = true;
  auditor = none;
  seed = fixed.ratio seconds 1;
  started = fixed.ratio seconds 1;
}

abbrev start_at : World ℤ → Start ℤ RoadList
start_at w = start (λ pattern name. pattern +++ name) w

without_model : start_at (record (world 5) { model = no_file }) ≡ exits
unfolding start main init build load_topics read_topics require Dict.get load_topology
    load_intersections load_intersection load_roads load_road
without_model = refl

without_contract : start_at (record (world 5) { contract = missing }) ≡ traceback
unfolding start load_topics
without_contract = refl

start-IsExplained_example : IsExplained (world 5) (start_at (world 5))
start-IsExplained_example = start-IsExplained RoadList (λ pattern name. pattern +++ name) (world 5)

abbrev setup : Setup ℤ
setup = record {
  session = λ obs. some (fixed.ratio 1 1 ∷ fixed.ratio 2 1 ∷ []);
  command_topic = λ name. "semaforo/commands/" +++ name;
  timing_topic = λ name. "semaforo/timing/" +++ name;
}

abbrev fresh : ℕ → Coordinator ℤ RoadList
fresh seconds = record {
  running = true;
  connected = true;
  last_plan_time = fixed.ratio 0 1;
  next_sequence = seconds * 1000;
  telemetry = [];
  graph_manager = row_manager;
  sync_service = Sync.init default_zone sync_interval_s (fixed.ratio seconds 1);
  emergency_handler = new_handler;
  auditor = none;
  published = [];
}

abbrev subscriptions : List (String × ℕ)
subscriptions = ("semaforo/telemetry/+", 1) ∷ ("semaforo/+/emergency", 2) ∷ []

runs_at_5 : start_at (world 5) ≡ runs false setup (fresh 5) subscriptions
unfolding start main connect on_connect init build load_topics read_topics require Dict.get
    load_topology load_intersections load_intersection load_roads load_road add_road_edges
    road_attrs Dict.put
runs_at_5 = refl

runs_at_6 : start_at (world 6) ≡ runs false setup (fresh 6) subscriptions
unfolding start main connect on_connect init build load_topics read_topics require Dict.get
    load_topology load_intersections load_intersection load_roads load_road add_road_edges
    road_attrs Dict.put
runs_at_6 = refl

abbrev heard : List (Event ℤ)
heard =
    message ("semaforo" ∷ "telemetry" ∷ "a" ∷ []) (some telemetry_msg) (fixed.ratio 5 1)
      (fixed.ratio 5 1) (fixed.ratio 5 1)
    ∷ []

one_number : numbered (run setup heard (fresh 5)).published ≡ 1
unfolding run dispatch on_message handle_telemetry read_telemetry audit decide reply_phase
    publish_json build_phase_command predict
one_number = refl

restart-Increasing_example :
    Increasing 5000
      ((run setup heard (fresh 5)).published ++ (run setup heard (fresh 6)).published)
      (run setup heard (fresh 6)).next_sequence
restart-Increasing_example =
    restart-Increasing (λ pattern name. pattern +++ name) (world 5) (world 6) setup setup (fresh 5)
      (fresh 6) false false subscriptions subscriptions heard heard runs_at_5 runs_at_6
      (rw one_number (omega arith))
