-- ===== src/Network/MainLoop/Sequence.antt =====
-- The sequence numbers that a coordinator publishes, over whole runs.
use semaforo.Prelude.{
  ℕ, suc, refl, String, Bool, true, false, Option, none, some, List, [], ◌∷◌, arith, if◌then◌else◌,
  Option-cases, if_ind, inl, inr,
}
use semaforo.Float.{Float}
use semaforo.Network.Message.{Payload, Message, TimingPlan}
use semaforo.Network.Policy.{Telemetry}
use semaforo.Network.Auditor.{ShadowAuditor}
use semaforo.Network.Corridors.{identify_corridors}
use semaforo.Network.DiGraph.{DiGraph}
use semaforo.Network.Sync
use semaforo.Network.Sync.{SyncService}
use semaforo.Network.Emergency.{on_emergency}
use semaforo.Network.Coordinator.{
  Setup, Coordinator, deliver, publish_json, publish_timing_plan, reply_phase, decide,
  handle_telemetry, on_message, handle_signal, shutdown, TelemetryMsg,
}
use semaforo.Network.MainLoop.{
  Event, message, emergency, round, signal, publish_plan, publish_plans_from,
  compute_and_publish_plans, maybe_plan, sync_round, loop_round, handle_emergency, dispatch, run,
  Readings,
}
use semaforo.Network.MainLoop.Numbers.{
  Consecutive, Unnumbered, Consecutive-append-Unnumbered, Consecutive-append_one, tick-Unnumbered,
  on_emergency-Unnumbered,
}

module _ {W G : Type 0} where
  abbrev pub IsSequenced : ℕ → Coordinator W G → Type 0
  IsSequenced lo c = Consecutive lo c.published c.next_sequence

  deliver-IsSequenced :
      (lo : ℕ) (ms : List (Message W)) (c : Coordinator W G)
      → Unnumbered ms
      → IsSequenced lo c
      → IsSequenced lo (deliver ms c)
  unfolding deliver
  deliver-IsSequenced lo ms c u h =
      Consecutive-append-Unnumbered lo c.next_sequence c.published ms h u

  publish_json-IsSequenced :
      (lo : ℕ) (topic : String) (p : Payload W) (qos : ℕ) (retain : Bool) (c : Coordinator W G)
      → IsSequenced lo c
      → IsSequenced lo (publish_json topic p qos retain c)
  unfolding publish_json
  publish_json-IsSequenced lo topic p qos retain c h =
      Consecutive-append_one lo c.next_sequence c.published _ h refl

module _ {W G : Type 0} ⦃f : Float W⦄ (env : Setup W) (lo : ℕ) where
  reply_phase-IsSequenced :
      (node : String) (t : W) (p : Option String) (c : Coordinator W G)
      → IsSequenced lo c
      → IsSequenced lo (reply_phase env node t p c)
  unfolding reply_phase
  reply_phase-IsSequenced node t none c h = h
  reply_phase-IsSequenced node t (some p) c h = publish_json-IsSequenced lo _ _ 1 false c h

  decide-IsSequenced :
      (node : String) (t : W) (msg : Telemetry W) (a : Option (Option (ShadowAuditor W)))
      (c : Coordinator W G)
      → IsSequenced lo c
      → IsSequenced lo (decide env node t msg a c)
  unfolding decide
  decide-IsSequenced node t msg none c h = h
  decide-IsSequenced node t msg (some a) c h =
      reply_phase-IsSequenced node t _ (record c { auditor = a }) h

  handle_telemetry-IsSequenced :
      (node : String) (msg : Option (TelemetryMsg W)) (t u v : W) (c : Coordinator W G)
      → IsSequenced lo c
      → IsSequenced lo (handle_telemetry env node msg t u v c)
  unfolding handle_telemetry
  handle_telemetry-IsSequenced node none t u v c h = h
  handle_telemetry-IsSequenced node (some msg) t u v c h = decide-IsSequenced node v _ _ _ h

  on_message-IsSequenced :
      (parts : List String) (msg : Option (TelemetryMsg W)) (t u v : W) (c : Coordinator W G)
      → IsSequenced lo c
      → IsSequenced lo (on_message env parts msg t u v c)
  unfolding on_message
  on_message-IsSequenced (root ∷ channel ∷ node ∷ rest) msg t u v c h =
      ground (arith, handle_telemetry-IsSequenced node msg t u v c h)
  on_message-IsSequenced _ msg t u v c h = h

module _ {W G : Type 0} ⦃f : Float W⦄ ⦃g : DiGraph W G⦄ (env : Setup W) (lo : ℕ) where
  publish_plan-IsSequenced :
      (p : Option (TimingPlan W)) (c : Coordinator W G)
      → IsSequenced lo c
      → IsSequenced lo (publish_plan env p c)
  unfolding publish_plan publish_timing_plan
  publish_plan-IsSequenced none c h = h
  publish_plan-IsSequenced (some p) c h = publish_json-IsSequenced lo _ _ 1 true c h

  publish_plans_from-IsSequenced :
      (t u : ℕ → W) (k : ℕ) (corridors : List (List String)) (c : Coordinator W G)
      → IsSequenced lo c
      → IsSequenced lo (publish_plans_from env t u k corridors c)
  unfolding publish_plans_from
  publish_plans_from-IsSequenced t u k [] c h = h
  publish_plans_from-IsSequenced t u k (x ∷ xs) c h =
      publish_plans_from-IsSequenced t u (suc k) xs _ (publish_plan-IsSequenced _ c h)

  compute_and_publish_plans-IsSequenced :
      (t u : ℕ → W) (end : W) (c : Coordinator W G)
      → IsSequenced lo c
      → IsSequenced lo (compute_and_publish_plans env t u end c)
  unfolding compute_and_publish_plans
  compute_and_publish_plans-IsSequenced t u end c h =
      elim (Option-cases (identify_corridors c.graph_manager)) [
        | inl e ↦ rw (e, compute_and_publish_plans) h
        | inr (cs, e) ↦
            rw (e, compute_and_publish_plans) (publish_plans_from-IsSequenced t u 0 cs c h)
      ]

  maybe_plan-IsSequenced :
      (r : Readings W) (c : Coordinator W G)
      → IsSequenced lo c
      → IsSequenced lo (maybe_plan env r c)
  unfolding maybe_plan
  maybe_plan-IsSequenced r c h =
      ground (arith, compute_and_publish_plans-IsSequenced r.plan_ids r.plan_stamps r.plan_end c h)

  sync_round-IsSequenced :
      (r : Readings W) (c : Coordinator W G) → IsSequenced lo c → IsSequenced lo (sync_round r c)
  unfolding sync_round
  sync_round-IsSequenced r c h =
      if_ind (IsSequenced lo) c.connected
        (deliver-IsSequenced lo _
          (record c {
            sync_service = (Sync.tick r.sync_now r.sync_stamp r.sync_uptime c.sync_service).0;
          })
          (tick-Unnumbered r.sync_now r.sync_stamp r.sync_uptime c.sync_service) h)
        h

  dispatch-IsSequenced :
      (e : Event W) (c : Coordinator W G) → IsSequenced lo c → IsSequenced lo (dispatch env e c)
  unfolding dispatch loop_round shutdown deliver handle_emergency handle_signal
  dispatch-IsSequenced (message parts msg t u v) c h =
      on_message-IsSequenced env lo parts msg t u v c h
  dispatch-IsSequenced (emergency t now e) c h =
      deliver-IsSequenced lo _
        (record c {
          emergency_handler = (on_emergency c.graph_manager t now e c.emergency_handler).0;
        })
        (on_emergency-Unnumbered c.graph_manager t now e c.emergency_handler) h
  dispatch-IsSequenced (round r) c h =
      if_ind (IsSequenced lo) c.running (sync_round-IsSequenced r _ (maybe_plan-IsSequenced r c h))
        h
  dispatch-IsSequenced signal c h = h

  -- If so far every command for a phase and every timing plan has a number, and the numbers are those
  -- from `lo` up to the counter, one after the other in the order of publication, then so it is after
  -- any run in which each handler ends before the next begins, whatever emergencies and pulses, which
  -- have no numbers, come between.
  pub run-IsSequenced :
      (es : List (Event W)) (c : Coordinator W G) → IsSequenced lo c → IsSequenced lo (run env es c)
  unfolding run
  run-IsSequenced [] c h = h
  run-IsSequenced (e ∷ es) c h =
      run-IsSequenced es (if c.connected then dispatch env e c else c)
        (if_ind (IsSequenced lo) c.connected (dispatch-IsSequenced e c h) h)
