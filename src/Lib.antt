-- ===== src/Lib.antt =====
-- Models of the Python services of Semáforo, an adaptive traffic-signal system, and what is proved of
-- them.
--
-- The program. Edge nodes report telemetry over MQTT. The coordinator (network/coordinator/src) keeps
-- the road network, replies to telemetry with a phase chosen by a policy, publishes timing plans for
-- corridors and synchronisation pulses, and opens a path for emergency vehicles. The brain
-- (brain/src) holds the controllers, the rewards and the environments in which the policy is trained.
-- scripts/verify_contract.py checks commands against the contract in network/schemas/topics.yaml.
--
-- The models.
--   Prelude, Float: lists, dictionaries, integers, texts and floating-point numbers. A number type is a
--     parameter, with the laws of rounded arithmetic that the proofs use (Float.IsOrdered);
--     Float/Fixed is such a type, with six decimals, and the examples run on it.
--   Agents/FixedTime: brain/src/agents/fixed_time_baseline.py, the fixed-time controller.
--   Network/DiGraph: the operations of networkx that the coordinator calls, as an interface, with what
--     networkx documents of edges (IsDiGraph).
--   Network/Graph, Network/Corridors: network/coordinator/src/graph_manager.py (`_load_topology` is
--     `load_topology`, `identify_corridors` keeps its name).
--   Network/Plan: `_compute_corridor_plan` of network/coordinator/src/coordinator.py.
--   Network/Sync: network/coordinator/src/sync_service.py.
--   Network/Emergency: network/coordinator/src/emergency.py.
--   Network/Policy: `AIPolicyWrapper`; the ONNX session is a parameter.
--   Network/Auditor: brain/src/environments/shadow_auditor.py.
--   Network/Coordinator, Network/MainLoop: `GreenWaveCoordinator` (with `SequenceCounter`). A run is a
--     list of events (a message, an emergency, a round of the main loop, a signal), in the order in
--     which they are handled.
--   Network/Startup: `_load_topics`, the constructors and `main` of coordinator.py; Restart joins the
--     numbers of two runs.
--   Network/Threads: `SequenceCounter.next` and `_publish_json` in several threads, step by step. Atomic is
--     the specification of the counter, in which drawing a number is one step.
--   Network/Contract: the checks of scripts/verify_contract.py.
--   Rewards: brain/src/rewards.
--   Environments: brain/src/environments. Signal is what SUMO answers of a traffic signal; Actions, the
--     corrections of actions (`step`, `step_async`, `_clamp_actions`); Lanes, the two
--     `_aggregate_directions`; OwnState, the observation of one intersection (`_transform_observation`,
--     `_build_own_state`); Corridor, that of a whole corridor
--     (`_build_observations`), with `reset` and `step_wait`.
--   Environments/Single: single_intersection.py, reset and step with the account of an episode.
--   Environments/Multi: multi_intersection.py, the environment of several agents with its cache of
--     observations; what SUMO answers of a step is an argument. Multi/Episode is how a reset chooses its
--     demand.
--   Vision: brain/src/vision/obs_builder.py, the same observation from the counts of four cameras.
--   Vision/Harness: brain/scripts/yolo_inference.py, the policy on real cameras in shadow (`main` and
--     `OnnxPolicy.decide`), with its decision log.
--   Training/Scenarios: brain/src/training/scenarios.py. Worlds has the scenarios and how an episode
--     draws one, Routes the demand, as XML elements before they are printed.
--   Training/Benchmark: `run_simulation` of brain/src/training/benchmark_green_wave.py.
--   Training/Curriculum: `CurriculumCallback` of brain/scripts/train_mappo.py, by which the stages are
--     unlocked.
--   Networks: brain/sumo_networks/network_generator.py, the networks that it lays out.
--   Traffic/Seasons: scripts/simulate_necochea_seasons.py; Injected holds its proofs.
--   Traffic: brain/scripts/generate_sumo_traffic.py, the demand from the tracks of four cameras. Sightings
--     is about the vehicles of one camera, Departures about what is written.
--   Queueing: brain/src/queue_theory, Webster's formulas and the M/D/1 queue.
--   Coordination/GreenWave: brain/src/coordination/green_wave.py.
--   Coordination/GraphModel: brain/src/coordination/graph_model.py. Heap and Dijkstra are the search
--     (`shortest_path`), Stored what `to_dict` writes and `load` reads; Closed, StoredLaws and the
--     children of Dijkstra hold proofs.
-- State is passed explicitly: a method takes the object and returns the new one, with the messages that
-- it publishes or its result. Every reading of a clock is an argument. An exception is `none`, or
-- ends the handler where the source catches it. JSON texts are records with an Option for each key.
--
-- Fuel: the two `while` loops of the search in Coordination/GraphModel/Dijkstra run on fuel, one unit a
-- round; two units more than the network has roads are enough, as each round uses up a queue entry or
-- the roads of a node. A simulated day (Traffic/Seasons) takes one unit for each of its 86401 steps.
-- The loop of a benchmark (Training/Benchmark) runs as long as the simulator has vehicles, one unit a
-- step. All other loops run over lists, and the main loop is a list of events.
--
-- Threads: in Network/MainLoop a handler's step is taken whole, so the order of publication there is
-- that of handlers which do not overlap. Network/Threads interleaves the accesses of the sequence
-- counter, the one object that the main loop and the callbacks both number with, and there one
-- thread's message may overtake another's.
--
-- Not modelled: MQTT, files, the text of XML and JSON, and logging; networkx, onnxruntime and SUMO, which
-- are parameters; the edge software in C++, the dashboard, neural networks and their training, the
-- detection of vehicles, the statistics of brain/src/utils/metrics.py, which numpy and pandas compute,
-- plots, attacks on a running system and command lines.
pub mod Prelude
pub mod Float
pub mod Agents
pub mod Network
pub mod Rewards
pub mod Environments
pub mod Coordination
pub mod Vision
pub mod Training
pub mod Queueing
pub mod Networks
pub mod Traffic
mod Tests
