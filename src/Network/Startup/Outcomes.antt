-- ===== src/Network/Startup/Outcomes.antt =====
-- What each end of the coordinator's start tells of the files that it found.
use semaforo.Prelude.{
  ◌≡◌, refl, sym, ◌∙◌, String, Bool, true, false, Option, none, some, [], ◌∷◌, ◌⊎◌, inl, inr,
  pos_part, if◌then◌else◌,
}
use semaforo.Float.{Float}
use semaforo.Network.Message.{millis}
use semaforo.Network.DiGraph.{DiGraph}
use semaforo.Network.Graph.{Topology, GraphManager, load_topology, empty_manager}
use semaforo.Network.Emergency.{topic_emergency}
use semaforo.Network.Coordinator.{Setup, Coordinator}
use semaforo.Network.Startup.{
  runtime_error, other_error, Result, ok, raised, ContractFile, Topics, load_topics, read_topics,
  ModelFile, no_file, refused, session, World, TopologyFile, no_topology, no_json, topology_file,
  CaFile, no_ca, ca_refused, ca_taken, init, build, on_connect, Start, runs, exits, traceback,
  connect, main, start, or_raise, ◌>>=◌, load_graph,
}
use semaforo.Network.Startup.Contract.{Provides, IsReadFrom, load_topics-IsReadFrom}

-- TLS is used if and only if there is a CA file.
abbrev pub UsesTls : CaFile → Bool → Type 0
UsesTls no_ca tls = tls ≡ false
UsesTls ca_refused tls = ⊥
UsesTls ca_taken tls = tls ≡ true

module _ {W G : Type 0} ⦃f : Float W⦄ ⦃g : DiGraph W G⦄ where
  -- The graph that a topology file gives: an empty one without a file, none if it is broken.
  abbrev pub Loads : TopologyFile W → GraphManager W G → Type 0
  Loads no_topology m = m ≡ empty_manager
  Loads no_json m = ⊥
  Loads (topology_file file) m = load_topology (some file) ≡ some m

  abbrev pub IsMade : World W → Result (Bool × Setup W × Coordinator W G) → Type 0
  IsMade w (ok (tls, env, c)) =
      Loads w.topology c.graph_manager
      × UsesTls w.ca_file tls
      × (w.model ≡ session env.session)
      × (c.next_sequence ≡ pos_part (millis w.seed))
      × (c.published ≡ [])
  IsMade w (raised runtime_error) =
      ((m : GraphManager W G) × Loads w.topology m)
      × ((tls : Bool) × UsesTls w.ca_file tls)
      × ((w.model ≡ no_file)
          ⊎ ((w.model ≡ refused runtime_error) ⊎ (w.auditor ≡ some (raised runtime_error))))
  IsMade w (raised other_error) =
      ((m : GraphManager W G) → ¬ Loads w.topology m)
      ⊎ ((w.ca_file ≡ ca_refused)
          ⊎ ((w.model ≡ refused other_error) ⊎ (w.auditor ≡ some (raised other_error))))

  build-IsMade :
      (fill : String → String → String) (t : Topics) (contract : ContractFile)
      (topology : TopologyFile W) (model : ModelFile W) (ca_file : CaFile) (broker : Bool)
      (auditor : Option (Result Bool)) (seed started : W) (m : GraphManager W G)
      → Loads topology m
      → let w : World W = record {
        contract = contract;
        topology = topology;
        model = model;
        ca_file = ca_file;
        broker = broker;
        auditor = auditor;
        seed = seed;
        started = started;
      } in
        IsMade w (build fill t w m)
  unfolding build
  build-IsMade fill t ct tp model ca_refused b a s st m h = inr (inl refl)
  build-IsMade fill t ct tp no_file no_ca b a s st m h = ((m, h), (false, refl), inl refl)
  build-IsMade fill t ct tp (refused runtime_error) no_ca b a s st m h =
      ((m, h), (false, refl), inr (inl refl))
  build-IsMade fill t ct tp (refused other_error) no_ca b a s st m h = inr (inr (inl refl))
  build-IsMade fill t ct tp (session p) no_ca b none s st m h = (h, refl, refl, refl, refl)
  build-IsMade fill t ct tp (session p) no_ca b (some (ok a)) s st m h = (h, refl, refl, refl, refl)
  build-IsMade fill t ct tp (session p) no_ca b (some (raised runtime_error)) s st m h =
      ((m, h), (false, refl), inr (inr refl))
  build-IsMade fill t ct tp (session p) no_ca b (some (raised other_error)) s st m h =
      inr (inr (inr refl))
  build-IsMade fill t ct tp no_file ca_taken b a s st m h = ((m, h), (true, refl), inl refl)
  build-IsMade fill t ct tp (refused runtime_error) ca_taken b a s st m h =
      ((m, h), (true, refl), inr (inl refl))
  build-IsMade fill t ct tp (refused other_error) ca_taken b a s st m h = inr (inr (inl refl))
  build-IsMade fill t ct tp (session p) ca_taken b none s st m h = (h, refl, refl, refl, refl)
  build-IsMade fill t ct tp (session p) ca_taken b (some (ok a)) s st m h =
      (h, refl, refl, refl, refl)
  build-IsMade fill t ct tp (session p) ca_taken b (some (raised runtime_error)) s st m h =
      ((m, h), (true, refl), inr (inr refl))
  build-IsMade fill t ct tp (session p) ca_taken b (some (raised other_error)) s st m h =
      inr (inr (inr refl))

  -- A topology that does not load is no RuntimeError.
  abbrev IsGraph : TopologyFile W → Result (GraphManager W G) → Type 0
  IsGraph file (ok m) = Loads file m
  IsGraph file (raised runtime_error) = ⊥
  IsGraph file (raised other_error) = (m : GraphManager W G) → ¬ Loads file m

  or_raise-IsGraph :
      (file : Topology W) (o : Option (GraphManager W G))
      → load_topology (some file) ≡ o
      → IsGraph (topology_file file) (or_raise o other_error)
  or_raise-IsGraph file none h =
      λ m k. let no : ◌≡◌ {A = Option (GraphManager W G)} none (some m) = sym h ∙ k in cc
  or_raise-IsGraph file (some m) h = h

  -- The end of the start, against what the process finds.
  abbrev pub IsExplained : World W → Start W G → Type 0
  IsExplained w (runs tls env c subscriptions) =
      (t : Topics) × Provides w.contract t
      × IsMade w (ok (tls, env, c))
      × (w.broker ≡ true)
      × (subscriptions ≡ (t.topic_telemetry, 1) ∷ (topic_emergency, 2) ∷ [])
  IsExplained w exits = ((t : Topics) × Provides w.contract t) × IsMade w (raised runtime_error)
  IsExplained w traceback =
      ((t : Topics) → ¬ Provides w.contract t)
      ⊎ ((w.broker ≡ false) ⊎ IsMade w (raised other_error))

module _ {W : Type 0} (G : Type 0) ⦃f : Float W⦄ ⦃g : DiGraph W G⦄ where
  load_graph-IsGraph : (file : TopologyFile W) → IsGraph {G = G} file (load_graph file)
  unfolding load_topology
  load_graph-IsGraph no_topology = refl
  load_graph-IsGraph no_json = λ m k. k
  load_graph-IsGraph (topology_file file) = or_raise-IsGraph file (load_topology (some file)) refl

  init-IsMade :
      (fill : String → String → String) (t : Topics) (w : World W)
      → IsMade w (init {G = G} fill t w)
  unfolding init
  init-IsMade fill t w = bound (load_graph w.topology) (load_graph-IsGraph w.topology)
    where
      bound :
          (r : Result (GraphManager W G)) → IsGraph w.topology r → IsMade w (r >>= build fill t w)
      bound (ok m) h =
          build-IsMade fill t w.contract w.topology w.model w.ca_file w.broker w.auditor w.seed
            w.started m h
      bound (raised runtime_error) h = elim h [ ]
      bound (raised other_error) h = inl h

  main-IsExplained :
      (fill : String → String → String) (t : Topics) (w : World W)
      → Provides w.contract t
      → IsExplained w (main {G = G} fill t w)
  unfolding main connect on_connect
  main-IsExplained fill t w h = made (init fill t w) (init-IsMade fill t w)
    where
      reached :
          (b tls : Bool) (env : Setup W) (c : Coordinator W G)
          → w.broker ≡ b
          → IsMade w (ok (tls, env, c))
          → IsExplained w (
              if b
              then runs tls env
                  (record c { running = true; connected = true })
                  ((t.topic_telemetry, 1) ∷ (topic_emergency, 2) ∷ [])
              else traceback)
      reached true tls env c e (a1, a2, a3, a4, a5) = (t, h, (a1, a2, a3, a4, a5), e, refl)
      reached false tls env c e k = inr (inl e)

      made :
          (r : Result (Bool × Setup W × Coordinator W G))
          → IsMade w r
          → IsExplained w (elim r [
            | ok made ↦ connect t w.broker made
            | raised runtime_error ↦ exits
            | raised other_error ↦ traceback
          ])
      made (ok (tls, env, c)) k = reached w.broker tls env c refl k
      made (raised runtime_error) k = ((t, h), k)
      made (raised other_error) k = inr (inr k)

  -- The main loop begins only with a contract that has the three channels and their keys, a topology
  -- file that loads or none, which gives an empty graph, a model and the broker. The client then uses
  -- TLS if there is a CA file, and no TLS without one; the process subscribes to the telemetry of the
  -- contract and to emergencies, and numbers its messages from the clock's milliseconds. It exits
  -- with one line only if contract, topology and CA file stop nothing and the model is missing, or a
  -- RuntimeError is raised for the model or by the auditor. So a contract that is missing or broken
  -- and a topology file that does not load end in an exception that nothing catches.
  pub start-IsExplained :
      (fill : String → String → String) (w : World W) → IsExplained w (start {G = G} fill w)
  unfolding start
  start-IsExplained fill w =
      read (load_topics w.contract >>= read_topics) (load_topics-IsReadFrom w.contract)
    where
      read :
          (r : Result Topics)
          → IsReadFrom w.contract r
          → IsExplained w (elim r [ ok topics ↦ main {G = G} fill topics w | raised _ ↦ traceback ])
      read (ok t) h = main-IsExplained fill t w h
      read (raised e) h = inl h
