-- ===== src/Network/Emergency/Route.antt =====
-- An emergency from its report to its end: which intersections get commands, and when.
use semaforo.Prelude.{
  ℕ, suc, ◌≡◌, refl, ap, String, false, Option, none, some, List, [], ◌∷◌, map, str_eq,
}
use semaforo.Prelude.Dict
use semaforo.Prelude.Dict.{get-put, get-remove}
use text.Mathlib.TextPositions.{eq_refl}
use semaforo.Float.{Float}
use semaforo.Network.DiGraph.{DiGraph}
use semaforo.Network.Graph
use semaforo.Network.Graph.{GraphManager, get_edge_distance, get_edge_speed_limit, or_else}
use semaforo.Network.Emergency.{
  EmergencyHandler, EmergencyEvent, given, command_topic, restore_from, clear_emergency, clear_from,
  clear_path, preempt, process_emergency,
}

module _ {W : Type 0} ⦃f : Float W⦄ where
  restore_from-topics :
      (id : String) (now : ℕ → W) (i : ℕ) (path : List String)
      → map (λ m. m.topic) (restore_from id now i path) ≡ map command_topic path
  unfolding restore_from
  restore_from-topics id now i [] = refl
  restore_from-topics id now i (x ∷ path) =
      ap (λ r. command_topic x ∷ r) (restore_from-topics id now (suc i) path)

module _ {W G : Type 0} ⦃f : Float W⦄ ⦃g : DiGraph W G⦄ where
  clear_from-topics :
      (m : GraphManager W G) (id direction : String) (now : ℕ → W) (i : ℕ) (prev : Option String)
      (delay : W) (path : List String)
      → map (λ m. m.topic) (clear_from m id direction now i prev delay path)
        ≡ map command_topic path
  unfolding clear_from
  clear_from-topics m id direction now i prev delay [] = refl
  clear_from-topics m id direction now i prev delay (x ∷ path) =
      ap (λ r. command_topic x ∷ r) (clear_from-topics m id direction now (suc i) (some x) _ path)

  process_emergency-preempt :
      (m : GraphManager W G) (id : String) (now : ℕ → W) (e : EmergencyEvent) (h : EmergencyHandler)
      (s t : String)
      → given e.origin_intersection ≡ some s
      → given e.destination_intersection ≡ some t
      → process_emergency m id now e h
        ≡ preempt m id (or_else e.direction "north") now (Graph.shortest_path m s t) h
  unfolding process_emergency
  process_emergency-preempt m id now e h s t o d = rw (o, d)

  preempt-clear :
      (m : GraphManager W G) (id direction : String) (now now' : ℕ → W) (h : EmergencyHandler)
      (x : String) (xs : List String)
      → let (h1, sent) = preempt m id direction now (x ∷ xs) h in
        let (h2, restored) = clear_emergency id now' h1 in
        (map (λ m. m.topic) sent ≡ map command_topic (x ∷ xs))
        × (map (λ m. m.topic) restored ≡ map command_topic (x ∷ xs))
        × (Dict.get h2.active_emergencies id ≡ none)
        × ((j : String)
            → str_eq id j ≡ false
            → Dict.get h2.active_emergencies j ≡ Dict.get h.active_emergencies j)
  unfolding preempt clear_path clear_emergency
  preempt-clear m id direction now now' h x xs = (
    clear_from-topics m id direction now 0 none (f.ratio 0 1) (x ∷ xs),
    rw (get-put h.active_emergencies id id (x ∷ xs), eq_refl id)
        (restore_from-topics id now' 0 (x ∷ xs)),
    rw (get-remove (Dict.put h.active_emergencies id (x ∷ xs)) id id, eq_refl id),
    λ j ne. rw (
      get-remove (Dict.put h.active_emergencies id (x ∷ xs)) id j,
      ne,
      get-put h.active_emergencies id j (x ∷ xs),
      ne,
    ),
  )

  -- If an event names an origin and a destination with a path between them, processing it publishes
  -- one command to each intersection of the path, in order; clearing it later publishes one to each
  -- of the same intersections, in the same order, and forgets it. Other emergencies stay as they were.
  pub process_emergency-clear :
      (m : GraphManager W G) (id : String) (now now' : ℕ → W) (e : EmergencyEvent)
      (h : EmergencyHandler) (s t x : String) (xs : List String)
      → given e.origin_intersection ≡ some s
      → given e.destination_intersection ≡ some t
      → Graph.shortest_path m s t ≡ x ∷ xs
      → let (h1, sent) = process_emergency m id now e h in
        let (h2, restored) = clear_emergency id now' h1 in
        (map (λ m. m.topic) sent ≡ map command_topic (x ∷ xs))
        × (map (λ m. m.topic) restored ≡ map command_topic (x ∷ xs))
        × (Dict.get h2.active_emergencies id ≡ none)
        × ((j : String)
            → str_eq id j ≡ false
            → Dict.get h2.active_emergencies j ≡ Dict.get h.active_emergencies j)
  process_emergency-clear m id now now' e h s t x xs o d p =
      rw (process_emergency-preempt m id now e h s t o d, p)
        (preempt-clear m id (or_else e.direction "north") now now' h x xs)
