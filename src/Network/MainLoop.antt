-- ===== src/Network/MainLoop.antt =====
-- network/coordinator/src/coordinator.py: the timing plans, the main loop, and a whole run as a list of
-- events in the order in which the process handles them, each handler taken whole: what overlapping
-- handlers do with the counter stands in Threads.
pub mod Numbers
pub mod Sequence
use semaforo.Prelude.{
  ℕ, zero, suc, ◌+◌, String, Bool, true, false, ◌&&◌, Option, none, some, List, [], ◌∷◌, ◌++◌,
  str_eq, if◌then◌else◌, not,
}
use semaforo.Prelude.Dict
use semaforo.Prelude.Dict.{Dict}
use semaforo.Float.{Float}
use semaforo.Network.Message.{Command, TimingPlan, Payload, Message, command, plan, millis}
use semaforo.Network.DiGraph.{DiGraph}
use semaforo.Network.Graph.{GraphManager, or_else}
use semaforo.Network.Corridors.{identify_corridors}
use semaforo.Network.Sync
use semaforo.Network.Sync.{SyncService}
use semaforo.Network.Emergency.{EmergencyHandler, EmergencyEvent, on_emergency}
use semaforo.Network.Policy.{Count, number, Telemetry, predict}
use semaforo.Network.Auditor.{ShadowAuditor, on_telemetry_received}
use semaforo.Network.Plan.{compute_corridor_plan}
use semaforo.Network.Coordinator.{
  Setup, TelemetryMsg, Coordinator, publish_timing_plan, deliver, shutdown, handle_signal,
  on_message,
}

module _ {W G : Type 0} ⦃f : Float W⦄ ⦃g : DiGraph W G⦄ where
  unfoldable pub publish_plan : Setup W → Option (TimingPlan W) → Coordinator W G → Coordinator W G
  publish_plan env none c = c
  publish_plan env (some p) c = publish_timing_plan env p c

  -- `t k` and `u k` are the clock readings for the `k`-th corridor.
  unfoldable pub publish_plans_from :
      Setup W → (ℕ → W) → (ℕ → W) → ℕ → List (List String) → Coordinator W G → Coordinator W G
  unfolding publish_plan
  publish_plans_from env t u k [] c = c
  publish_plans_from env t u k (corridor ∷ rest) c =
      publish_plans_from env t u (suc k) rest
        (publish_plan env (compute_corridor_plan c.graph_manager (t k) (u k) corridor) c)

  -- `end` is the last reading. An exception leaves the main loop, through its `finally`.
  unfoldable pub compute_and_publish_plans :
      Setup W → (ℕ → W) → (ℕ → W) → W → Coordinator W G → Coordinator W G
  unfolding publish_plans_from shutdown
  compute_and_publish_plans env t u end c = elim (identify_corridors c.graph_manager) [
    | none ↦ shutdown c
    | some corridors ↦ record (publish_plans_from env t u 0 corridors c) { last_plan_time = end }
  ]

module _ {W : Type 0} ⦃f : Float W⦄ where
  -- PLAN_RECOMPUTE_INTERVAL_S
  abbrev pub plan_recompute_interval_s : W
  plan_recompute_interval_s = f.ratio 60 1

-- The readings of one round of the main loop.
pub record Readings (W : Type 0) : Type 0 where
  pub now : W
  pub plan_ids : ℕ → W
  pub plan_stamps : ℕ → W
  pub plan_end : W
  pub sync_now : W
  pub sync_stamp : W
  pub sync_uptime : W

abbrev pub is_nil {ℓ} : {A : Type ℓ} → List A → Bool
is_nil [] = true
is_nil (x ∷ xs) = false

-- What happens to a coordinator that runs: its callbacks, rounds of its main loop, a signal.
pub data Event (W : Type 0) : Type 0 where
  message : List String → Option (TelemetryMsg W) → W → W → W → Event W
  emergency : W → (ℕ → W) → Option EmergencyEvent → Event W
  round : Readings W → Event W
  signal : Event W

module _ {W G : Type 0} ⦃f : Float W⦄ ⦃g : DiGraph W G⦄ where
  unfoldable pub maybe_plan : Setup W → Readings W → Coordinator W G → Coordinator W G
  unfolding compute_and_publish_plans
  maybe_plan env r c =
      if f.le plan_recompute_interval_s (f.sub r.now c.last_plan_time) && not (is_nil c.telemetry)
      then compute_and_publish_plans env r.plan_ids r.plan_stamps r.plan_end c
      else c

  -- A round that an exception ended does not reach the pulse.
  unfoldable pub sync_round : Readings W → Coordinator W G → Coordinator W G
  unfolding deliver
  sync_round r c =
      if c.connected
      then (let (s, sent) = Sync.tick r.sync_now r.sync_stamp r.sync_uptime c.sync_service in
          deliver sent (record c { sync_service = s }))
      else c

  unfoldable pub loop_round : Setup W → Readings W → Coordinator W G → Coordinator W G
  unfolding maybe_plan sync_round
  loop_round env r c = if c.running then sync_round r (maybe_plan env r c) else shutdown c

  unfoldable pub handle_emergency :
      W → (ℕ → W) → Option EmergencyEvent → Coordinator W G → Coordinator W G
  unfolding deliver
  handle_emergency t now e c =
      let (h, sent) = on_emergency c.graph_manager t now e c.emergency_handler in
      deliver sent (record c { emergency_handler = h })

  unfoldable pub dispatch : Setup W → Event W → Coordinator W G → Coordinator W G
  dispatch env (message parts msg t u v) c = on_message env parts msg t u v c
  dispatch env (emergency t now e) c = handle_emergency t now e c
  dispatch env (round r) c = loop_round env r c
  dispatch env signal c = handle_signal c

  -- Nothing reaches a coordinator that has disconnected.
  unfoldable pub run : Setup W → List (Event W) → Coordinator W G → Coordinator W G
  unfolding dispatch
  run env [] c = c
  run env (e ∷ es) c = run env es (if c.connected then dispatch env e c else c)
