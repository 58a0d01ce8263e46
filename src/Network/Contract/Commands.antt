-- ===== src/Network/Contract/Commands.antt =====
-- Which of the coordinator's commands pass the contract's checks.
use semaforo.Prelude.{
  ℕ, zero, suc, ◌-◌, ◌<◌, ◌≡◌, refl, String, true, false, Option, none, some, List, [], ◌∷◌, ◌++◌,
  arith, ℤ, All, sym,
}
use text.Mathlib.TextPositions.{eq_refl}
use mathlib.Core.List.{append-nil}
use mathlib.Core.Option.{some-injective}
use semaforo.Prelude.Dict
use semaforo.Float.{Float}
use semaforo.Network.Message.{Message, millis}
use semaforo.Network.DiGraph.{DiGraph}
use semaforo.Network.Graph.{GraphManager, ◌>>=◌}
use semaforo.Network.Policy.{
  Telemetry, predict, phase_by_action, infer, argmax, telemetry_to_observation,
}
use semaforo.Network.Auditor.{ShadowAuditor}
use semaforo.Network.Emergency.{
  EmergencyHandler, EmergencyEvent, clear_from, clear_path, preempt, process_between,
  process_emergency, restore_from, restore_path, clear_emergency, override, restore,
}
use semaforo.Network.Coordinator.{
  Setup, TelemetryMsg, Coordinator, publish_json, build_phase_command, reply_phase, decide,
  handle_telemetry,
}
use semaforo.Network.Contract.{
  mem_text, allowed_phases, is_fresh, check_payload, check_message, check_published,
}

phase_by_action_allowed :
    (a : ℕ) (p : String) → phase_by_action a ≡ some p → mem_text p allowed_phases ≡ true
phase_by_action_allowed zero p h = rw (← some-injective _ p h)
phase_by_action_allowed (suc zero) p h = rw (← some-injective _ p h)
phase_by_action_allowed (suc (suc n)) p h = cc

bind_some :
    {A B : Type 0} (o : Option A) (k : A → Option B) (b : B)
    → (o >>= k) ≡ some b
    → (a : A) × (k a ≡ some b)
bind_some none k b h = cc
bind_some (some a) k b h = (a, h)

module _ {W : Type 0} ⦃f : Float W⦄ where
  predict_allowed :
      (session : List W → Option (List W)) (t : Telemetry W) (p : String)
      → predict session t ≡ some p
      → mem_text p allowed_phases ≡ true
  unfolding predict
  predict_allowed session t p h =
      let (obs, h1) = bind_some (telemetry_to_observation t) _ p h in
      let (logits, h2) = bind_some (infer session obs) _ p h1 in
      let (action, h3) = bind_some (argmax logits) _ p h2 in phase_by_action_allowed action p h3

module _ {W G : Type 0} ⦃f : Float W⦄ (env : Setup W) (node : String) (now : ℤ) where
  -- What `c'` has published beyond `c`: at most one message, a fresh command that the checks accept.
  abbrev pub Conforms : Coordinator W G → Coordinator W G → Type 0
  Conforms c c' =
      (new : List (Message W)) × (c'.published ≡ c.published ++ new)
      × (check_published now (env.command_topic node) (c.next_sequence - 1) new ≡ true)

  reply_phase-Conforms :
      (t : W) (p : Option String) (c : Coordinator W G)
      → ((q : String) → p ≡ some q → mem_text q allowed_phases ≡ true)
      → 0 < c.next_sequence
      → is_fresh now (millis t) ≡ true
      → Conforms c (reply_phase env node t p c)
  unfolding reply_phase publish_json build_phase_command check_published
  reply_phase-Conforms t none c a h k = ([], sym (append-nil c.published), refl)
  reply_phase-Conforms t (some q) c a h k =
      (_, refl, ground (arith, a q refl, eq_refl (env.command_topic node)))

  decide-Conforms :
      (t : W) (msg : Telemetry W) (a : Option (Option (ShadowAuditor W))) (c : Coordinator W G)
      → 0 < c.next_sequence
      → is_fresh now (millis t) ≡ true
      → Conforms c (decide env node t msg a c)
  unfolding decide
  decide-Conforms t msg none c h k =
      ([], sym (append-nil c.published), unfold check_published in refl)
  decide-Conforms t msg (some a) c h k =
      reply_phase-Conforms t (predict env.session msg) (record c { auditor = a })
        (λ q e. predict_allowed env.session msg q e) h k

  -- If the clock reading is fresh and the counter is above 0, then whatever the payload and whatever
  -- the policy answers, all that `handle_telemetry` publishes passes every check of verify_contract.py
  -- on the node's topic: action and phase allowed, quality of service 1, not retained, and a sequence
  -- number above the one before the counter.
  pub handle_telemetry-Conforms :
      (msg : Option (TelemetryMsg W)) (t u v : W) (c : Coordinator W G)
      → 0 < c.next_sequence
      → is_fresh now (millis v) ≡ true
      → Conforms c (handle_telemetry env node msg t u v c)
  unfolding handle_telemetry
  handle_telemetry-Conforms none t u v c h k =
      ([], sym (append-nil c.published), unfold check_published in refl)
  handle_telemetry-Conforms (some msg) t u v c h k = decide-Conforms v _ _ _ h k

module _ {W : Type 0} ⦃f : Float W⦄ where
  -- The contract's checks refuse it, its payload alone too, whatever the time, the topic and the
  -- numbers before it.
  abbrev pub IsRefused : Message W → Type 0
  IsRefused m =
      (now : ℤ) (topic : String) (previous : ℕ)
      → (check_payload now m.payload ≡ false) × (check_message now topic previous m ≡ false)

  restore_from-IsRefused :
      (id : String) (now : ℕ → W) (i : ℕ) (path : List String)
      → All IsRefused (restore_from id now i path)
  unfolding restore_from
  restore_from-IsRefused id now i [] = tt
  restore_from-IsRefused id now i (x ∷ path) = (
    (λ n topic previous. (unfold restore in refl, unfold check_message restore in ground arith)),
    restore_from-IsRefused id now (suc i) path,
  )

  restore_path-IsRefused :
      (id : String) (now : ℕ → W) (path : Option (List String))
      → All IsRefused (restore_path id now path)
  unfolding restore_path
  restore_path-IsRefused id now none = tt
  restore_path-IsRefused id now (some path) = restore_from-IsRefused id now 0 path

module _ {W G : Type 0} ⦃f : Float W⦄ ⦃g : DiGraph W G⦄ where
  clear_from-IsRefused :
      (m : GraphManager W G) (id direction : String) (now : ℕ → W) (i : ℕ) (prev : Option String)
      (delay : W) (path : List String)
      → All IsRefused (clear_from m id direction now i prev delay path)
  unfolding clear_from
  clear_from-IsRefused m id direction now i prev delay [] = tt
  clear_from-IsRefused m id direction now i prev delay (x ∷ path) = (
    (λ n topic previous. (unfold override in refl, unfold check_message override in ground arith)),
    clear_from-IsRefused m id direction now (suc i) (some x) _ path,
  )

  preempt-IsRefused :
      (m : GraphManager W G) (id direction : String) (now : ℕ → W) (path : List String)
      (h : EmergencyHandler)
      → All IsRefused (preempt m id direction now path h).1
  unfolding preempt clear_path
  preempt-IsRefused m id direction now [] h = tt
  preempt-IsRefused m id direction now (x ∷ path) h =
      clear_from-IsRefused m id direction now 0 none (f.ratio 0 1) (x ∷ path)

  process_between-IsRefused :
      (m : GraphManager W G) (id direction : String) (now : ℕ → W) (s t : Option String)
      (h : EmergencyHandler)
      → All IsRefused (process_between m id direction now s t h).1
  unfolding process_between
  process_between-IsRefused m id direction now (some s) (some t) h =
      preempt-IsRefused m id direction now _ h
  process_between-IsRefused m id direction now _ _ h = tt

  -- The contract's checks refuse every command that the emergency handler publishes, both those of
  -- an emergency and those of its recovery: already their payloads are not allowed.
  pub process_emergency-IsRefused :
      (m : GraphManager W G) (id : String) (now : ℕ → W) (e : EmergencyEvent) (h : EmergencyHandler)
      → All IsRefused (process_emergency m id now e h).1
        × All IsRefused (clear_emergency id now h).1
  unfolding process_emergency clear_emergency
  process_emergency-IsRefused m id now e h = (
    process_between-IsRefused m id _ now _ _ h,
    restore_path-IsRefused id now (Dict.get h.active_emergencies id),
  )
