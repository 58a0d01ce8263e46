-- ===== src/Tests/Coordinator.antt =====
-- Examples of the coordinator's services and of its runs, on three intersections in a row.
use semaforo.Prelude.{
  ℕ, ◌+◌, ◌≡◌, refl, String, true, false, none, some, List, [], ◌∷◌, map, All, ℤ, pos, arith,
  str_eq, length,
}
use semaforo.Prelude.Dict.{get}
use semaforo.Prelude.Text.{◌+++◌}
use semaforo.Float.{◌≼◌, sum_f, sum_from}
use semaforo.Float.Fixed.{fixed, fixed-IsOrdered}
use semaforo.Network.Graph.{edge_distance, get_edge_distance, shortest_path}
use semaforo.Network.Sync.{init}
use semaforo.Network.Sync.Pulses.{ticks, due_times, ticks-numbered, pulse_refs, TickReadings}
use semaforo.Network.Emergency.{
  EmergencyEvent, command_topic, process_emergency, clear_emergency, clear_path, new_handler,
}
use semaforo.Network.Emergency.Route.{process_emergency-clear}
use semaforo.Network.Emergency.Timing.{Ascending, timestamp_of, clear_path-Ascending}
use semaforo.Network.Policy.{Telemetry, number, null}
use semaforo.Network.Auditor.{new_auditor}
use semaforo.Network.Auditor.Totals.{observe_all, IsTotalled, observe_all-IsTotalled}
use semaforo.Network.Coordinator.{Setup, TelemetryMsg, Coordinator, handle_telemetry}
use semaforo.Network.MainLoop.{Event, message, emergency, round, signal, run, Readings}
use semaforo.Network.MainLoop.Sequence.{IsSequenced, run-IsSequenced}
use semaforo.Network.Contract.Commands.{
  Conforms, IsRefused, handle_telemetry-Conforms, process_emergency-IsRefused,
}
use semaforo.Tests.Roads.{RoadList, road_list, row_manager}

abbrev seconds : ℕ → ℤ
seconds n = fixed.ratio n 1

abbrev clock : ℕ → ℤ
clock i = pos (1_000_000_000 + i)

abbrev event : EmergencyEvent
event = record {
  emergency_id = some "e1";
  origin_intersection = some "a";
  destination_intersection = some "c";
  direction = none;
}

abbrev tick_times : List (TickReadings ℤ)
tick_times =
    record { now = seconds 10; stamp = seconds 10; uptime = seconds 10 }
    ∷ record { now = seconds 15; stamp = seconds 15; uptime = seconds 15 }
    ∷ record { now = seconds 20; stamp = seconds 20; uptime = seconds 20 }
    ∷ []

ticks-numbered_example :
    let (s', sent) = ticks tick_times (init "zone" (seconds 10) (seconds 0)) in
    (pulse_refs sent ≡ 1 ∷ 2 ∷ []) × (length sent ≡ 2) × (s'.cycle_counter ≡ 2)
unfolding due_times init
ticks-numbered_example = ticks-numbered tick_times (init "zone" (seconds 10) (seconds 0))

process_emergency-clear_example :
    let (h1, sent) = process_emergency row_manager "e1" clock event new_handler in
    let (h2, restored) = clear_emergency "e1" clock h1 in
    let path : List String = "a" ∷ "b" ∷ "c" ∷ [] in
    (map (λ m. m.topic) sent ≡ map command_topic path)
    × (map (λ m. m.topic) restored ≡ map command_topic path)
    × (get h2.active_emergencies "e1" ≡ none)
    × ((j : String)
        → str_eq "e1" j ≡ false
        → get h2.active_emergencies j ≡ get new_handler.active_emergencies j)
process_emergency-clear_example =
    process_emergency-clear row_manager "e1" clock clock event new_handler "a" "c" "a"
      ("b" ∷ "c" ∷ []) refl refl (unfold shortest_path in refl)

forward : (u v : String) → fixed.ratio 0 1 ≼ get_edge_distance row_manager u v
unfolding get_edge_distance edge_distance
forward u v = ground arith

clear_path-Ascending_example :
    Ascending (map timestamp_of (clear_path row_manager "e1" "north" clock ("a" ∷ "b" ∷ "c" ∷ [])))
clear_path-Ascending_example =
    clear_path-Ascending fixed-IsOrdered row_manager "e1" "north" clock forward (λ i. ground arith)
      ("a" ∷ "b" ∷ "c" ∷ [])

abbrev report : String → ℕ → Telemetry ℤ
report phase vehicles = record {
  intersection_id = "a";
  phase = phase;
  vehicle_count = number (seconds vehicles);
  total_vehicles = number (seconds vehicles);
  flow_rate = null;
}

new_auditor-IsTotalled : IsTotalled (new_auditor {W = ℤ} true)
unfolding new_auditor sum_f sum_from
new_auditor-IsTotalled = record { total = refl; sent = λ h. refl; unsent = λ h. refl }

observe_all-IsTotalled_example : IsTotalled (
    observe_all
      (λ t. some "GREEN_NS")
      ((seconds 1, seconds 1, report "GREEN_EW" 7)
        ∷ (seconds 2, seconds 2, report "GREEN_NS" 4)
        ∷ [])
      (new_auditor {W = ℤ} true))
observe_all-IsTotalled_example =
    observe_all-IsTotalled (λ t. some "GREEN_NS")
      ((seconds 1, seconds 1, report "GREEN_EW" 7)
        ∷ (seconds 2, seconds 2, report "GREEN_NS" 4)
        ∷ [])
      (new_auditor true) new_auditor-IsTotalled

-- A policy that prefers the second action.
abbrev setup : Setup ℤ
setup = record {
  session = λ obs. some (seconds 1 ∷ seconds 2 ∷ []);
  command_topic = λ id. "semaforo/commands/" +++ id;
  timing_topic = λ zone. "semaforo/timing/" +++ zone;
}

abbrev pub telemetry_msg : TelemetryMsg ℤ
telemetry_msg = record {
  intersection_id = some "a";
  phase = some "GREEN_NS";
  total_vehicles = some (number (seconds 12));
  flow_rate = none;
}

abbrev coordinator : Coordinator ℤ RoadList
coordinator = record {
  running = true;
  connected = true;
  last_plan_time = seconds 0;
  next_sequence = 5;
  telemetry = [];
  graph_manager = row_manager;
  sync_service = record {
    zone_id = "zone";
    interval_s = seconds 10;
    last_pulse_time = seconds 0;
    cycle_counter = 0;
    start_time = seconds 0;
  };
  emergency_handler = new_handler;
  auditor = none;
  published = [];
}

handle_telemetry-Conforms_example : Conforms setup "a" (pos 1_000_000) coordinator (
    handle_telemetry setup "a"
      (some telemetry_msg)
      (seconds 1000)
      (seconds 1000)
      (seconds 1000)
      coordinator)
handle_telemetry-Conforms_example =
    handle_telemetry-Conforms setup "a" (pos 1_000_000) (some telemetry_msg) (seconds 1000)
      (seconds 1000) (seconds 1000) coordinator (omega arith) refl

process_emergency-IsRefused_example :
    All IsRefused (process_emergency row_manager "e1" clock event new_handler).1
    × All IsRefused (clear_emergency "e1" clock new_handler).1
process_emergency-IsRefused_example =
    process_emergency-IsRefused row_manager "e1" clock event new_handler

abbrev readings : Readings ℤ
readings = record {
  now = seconds 100;
  plan_ids = λ k. seconds 100;
  plan_stamps = λ k. seconds 100;
  plan_end = seconds 101;
  sync_now = seconds 101;
  sync_stamp = seconds 101;
  sync_uptime = seconds 101;
}

abbrev events : List (Event ℤ)
events =
    message ("semaforo" ∷ "telemetry" ∷ "a" ∷ []) (some telemetry_msg) (seconds 99) (seconds 99)
      (seconds 99)
    ∷ round readings
    ∷ emergency (seconds 102) clock (some event)
    ∷ signal
    ∷ []

run-IsSequenced_example : IsSequenced 5 (run setup events coordinator)
run-IsSequenced_example = run-IsSequenced setup 5 events coordinator (omega arith)
