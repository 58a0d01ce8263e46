-- ===== src/Network/MainLoop/Numbers.antt =====
-- Sequences of messages by their numbers, and the messages that the services publish without one.
use semaforo.Prelude.{
  Bool, true, false, str_eq, sym, ℕ, suc, ◌+◌, ◌≡◌, refl, String, Option, none, some, List, [], ◌∷◌,
  ◌++◌, arith, All,
}
use semaforo.Float.{Float}
use semaforo.Network.Message.{Message, Payload, command, plan, pulse}
use semaforo.Network.DiGraph.{DiGraph}
use semaforo.Network.Graph.{GraphManager}
use semaforo.Network.Sync
use semaforo.Network.Sync.{SyncService}
use semaforo.Network.Emergency.{
  EmergencyHandler, EmergencyEvent, on_emergency, process_emergency, process_between, preempt,
  clear_path, clear_from, override,
}

-- The payloads that `_publish_json` numbers: commands for a phase and timing plans. The commands of the
-- emergency handler have other actions.
abbrev pub needs_number : {W : Type 0} → Payload W → Bool
needs_number (command c) = str_eq c.action "CHANGE_PHASE"
needs_number (plan p) = true
needs_number (pulse p) = false

abbrev pub next_after : ℕ → Option ℕ → ℕ
next_after lo none = lo
next_after lo (some k) = k + 1

abbrev pub count_one : Option ℕ → ℕ
count_one none = 0
count_one (some k) = 1

module _ {W : Type 0} where
  -- A message with the number `lo`, or one without a number that needs none.
  abbrev pub IsNext : ℕ → Payload W → Option ℕ → Type 0
  IsNext lo p none = needs_number p ≡ false
  IsNext lo p (some k) = k ≡ lo

  -- The numbered messages have the numbers from `lo` on, one after the other, and `hi` comes next.
  abbrev pub Consecutive : ℕ → List (Message W) → ℕ → Type 0
  Consecutive lo [] hi = lo ≡ hi
  Consecutive lo (m ∷ ms) hi =
      IsNext lo m.payload m.sequence_number × Consecutive (next_after lo m.sequence_number) ms hi

  -- How many messages have a number.
  abbrev pub numbered : List (Message W) → ℕ
  numbered [] = 0
  numbered (m ∷ ms) = count_one m.sequence_number + numbered ms

  abbrev pub Unnumbered : List (Message W) → Type 0
  Unnumbered = All (λ m. (m.sequence_number ≡ none) × (needs_number m.payload ≡ false))

  IsNext-none :
      (lo : ℕ) (p : Payload W) (n : Option ℕ) → n ≡ none → needs_number p ≡ false → IsNext lo p n
  IsNext-none lo p none h k = k
  IsNext-none lo p (some x) h k = cc

  pub Consecutive-append-Unnumbered :
      (lo hi : ℕ) (ms ns : List (Message W))
      → Consecutive lo ms hi
      → Unnumbered ns
      → Consecutive lo (ms ++ ns) hi
  Consecutive-append-Unnumbered lo hi [] [] h u = h
  Consecutive-append-Unnumbered lo hi [] (n ∷ ns) h ((e, k), u) = (
    IsNext-none lo n.payload n.sequence_number e k,
    rw e (Consecutive-append-Unnumbered lo hi [] ns h u),
  )
  Consecutive-append-Unnumbered lo hi (m ∷ ms) ns h u =
      (h.0, Consecutive-append-Unnumbered (next_after lo m.sequence_number) hi ms ns h.1 u)

  pub Consecutive-append_one :
      (lo hi : ℕ) (ms : List (Message W)) (m : Message W)
      → Consecutive lo ms hi
      → m.sequence_number ≡ some hi
      → Consecutive lo (ms ++ m ∷ []) (hi + 1)
  Consecutive-append_one lo hi [] m h e = rw e (sym h, refl)
  Consecutive-append_one lo hi (n ∷ ms) m h e =
      (h.0, Consecutive-append_one (next_after lo n.sequence_number) hi ms m h.1 e)

module _ {W : Type 0} ⦃f : Float W⦄ where
  pub tick-Unnumbered : (a b d : W) (s : SyncService W) → Unnumbered (Sync.tick a b d s).1
  unfolding Sync.tick
  tick-Unnumbered a b d s = ground arith

module _ {W G : Type 0} ⦃f : Float W⦄ ⦃g : DiGraph W G⦄ where
  clear_from-Unnumbered :
      (m : GraphManager W G) (id direction : String) (now : ℕ → W) (i : ℕ) (prev : Option String)
      (delay : W) (path : List String)
      → Unnumbered (clear_from m id direction now i prev delay path)
  unfolding clear_from
  clear_from-Unnumbered m id direction now i prev delay [] = tt
  clear_from-Unnumbered m id direction now i prev delay (x ∷ path) = (
    (refl, unfold override in refl),
    clear_from-Unnumbered m id direction now (suc i) (some x) _ path,
  )

  preempt-Unnumbered :
      (m : GraphManager W G) (id direction : String) (now : ℕ → W) (path : List String)
      (h : EmergencyHandler)
      → Unnumbered (preempt m id direction now path h).1
  unfolding preempt clear_path
  preempt-Unnumbered m id direction now [] h = tt
  preempt-Unnumbered m id direction now (x ∷ path) h =
      clear_from-Unnumbered m id direction now 0 none _ (x ∷ path)

  process_between-Unnumbered :
      (m : GraphManager W G) (id direction : String) (now : ℕ → W) (s t : Option String)
      (h : EmergencyHandler)
      → Unnumbered (process_between m id direction now s t h).1
  unfolding process_between
  process_between-Unnumbered m id direction now (some s) (some t) h =
      preempt-Unnumbered m id direction now _ h
  process_between-Unnumbered m id direction now _ _ h = tt

  pub on_emergency-Unnumbered :
      (m : GraphManager W G) (t : W) (now : ℕ → W) (e : Option EmergencyEvent)
      (h : EmergencyHandler)
      → Unnumbered (on_emergency m t now e h).1
  unfolding on_emergency process_emergency
  on_emergency-Unnumbered m t now none h = tt
  on_emergency-Unnumbered m t now (some e) h = process_between-Unnumbered m _ _ now _ _ h
