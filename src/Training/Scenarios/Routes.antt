-- ===== src/Training/Scenarios/Routes.antt =====
-- `scenario_to_routes_xml` of brain/src/training/scenarios.py, up to the text: an XML element is a value
-- with its attributes, numbers before they are printed.
use semaforo.Prelude.{ℕ, String, List, [], ◌∷◌, ◌++◌, if◌then◌else◌}
use semaforo.Prelude.Text.{◌+++◌}
use semaforo.Float.{Float, max_f, min_f, lt}
use semaforo.Training.Scenarios.{WeatherProfile, ScenarioSpec}

pub record VType (W : Type 0) : Type 0 where
  pub id : String
  pub accel : W
  pub decel : W
  pub sigma : W
  pub min_gap : W
  pub max_speed : W

pub record Route : Type 0 where
  pub id : String
  pub edges : List String

pub record Flow (W : Type 0) : Type 0 where
  pub id : String
  pub vtype : String
  pub route : String
  pub end_ : ℕ
  pub probability : W

pub record Demand (W : Type 0) : Type 0 where
  pub vtypes : List (VType W)
  pub routes : List Route
  pub flows : List (Flow W)

-- _CROSS_NODES
abbrev pub cross_nodes : List String
cross_nodes = "c0" ∷ "c1" ∷ "c2" ∷ []

abbrev pub route : String → List String → Route
route id edges = record { id = id; edges = edges }

unfoldable pub cross_routes : List String → List Route
cross_routes [] = []
cross_routes (n ∷ ns) =
    route ("ns_" +++ n) ((n +++ "_north_in") ∷ (n +++ "_south_out") ∷ [])
    ∷ route ("sn_" +++ n) ((n +++ "_south_in") ∷ (n +++ "_north_out") ∷ [])
    ∷ cross_routes ns

abbrev pub all_routes : List Route
all_routes =
    (route "ew_through" ("west_entry_to_c0" ∷ "c0_to_c1" ∷ "c1_to_c2" ∷ "c2_to_east_entry" ∷ [])
      ∷ route "we_through" ("east_entry_to_c2" ∷ "c2_to_c1" ∷ "c1_to_c0" ∷ "c0_to_west_entry" ∷ [])
      ∷ route "w_to_c1n" ("west_entry_to_c0" ∷ "c0_to_c1" ∷ "c1_north_out" ∷ [])
      ∷ route "c0s_to_e" ("c0_south_in" ∷ "c0_to_c1" ∷ "c1_to_c2" ∷ "c2_to_east_entry" ∷ [])
      ∷ [])
    ++ cross_routes cross_nodes

module _ {W : Type 0} ⦃f : Float W⦄ where
  -- `round3` is Python's round to three decimals.
  unfoldable pub vtypes : (W → W) → WeatherProfile W → List (VType W)
  vtypes round3 weather =
      let car_speed = round3 (f.mul (f.ratio 1389 100) weather.speed_factor) in
      let bus_speed = round3 (f.mul (f.ratio 1111 100) weather.speed_factor) in
      let accel = round3 (f.mul (f.ratio 26 10) weather.accel_factor) in
      let decel = round3 (f.mul (f.ratio 45 10) weather.decel_factor) in
      let bus_accel = round3 (f.mul (f.ratio 15 10) weather.accel_factor) in
      let bus_decel = round3 (f.mul (f.ratio 35 10) weather.decel_factor) in
      let min_gap = round3 (f.mul (f.ratio 25 10) weather.min_gap_factor) in
      let bus_gap = round3 (f.mul (f.ratio 3 1) weather.min_gap_factor) in
      let sigma = round3 weather.sigma in
      record {
        id = "car";
        accel = accel;
        decel = decel;
        sigma = sigma;
        min_gap = min_gap;
        max_speed = car_speed;
      }
      ∷ record {
        id = "bus";
        accel = bus_accel;
        decel = bus_decel;
        sigma = sigma;
        min_gap = bus_gap;
        max_speed = bus_speed;
      }
      ∷ []

  -- `_prob`: vehicles per hour as a probability per second.
  unfoldable pub prob : W → W
  prob veh_per_hour =
      max_f (f.ratio 0 1) (min_f (f.ratio 1 1) (f.div veh_per_hour (f.ratio 3600 1)))

  -- A flow that would hardly ever emit is left out.
  unfoldable pub flow : ℕ → String → String → String → W → List (Flow W)
  flow end_ id vtype route p =
      if lt p (f.ratio 1 100_000)
      then []
      else record { id = id; vtype = vtype; route = route; end_ = end_; probability = p } ∷ []

  unfoldable pub cross_flows : ℕ → W → List String → List (Flow W)
  unfolding flow prob
  cross_flows end_ cross_flow [] = []
  cross_flows end_ cross_flow (n ∷ ns) =
      flow end_ ("flow_ns_" +++ n) "car" ("ns_" +++ n) (prob cross_flow)
      ++ flow end_ ("flow_sn_" +++ n) "car" ("sn_" +++ n) (prob cross_flow)
      ++ cross_flows end_ cross_flow ns

  unfoldable pub scenario_flows : ScenarioSpec W → List (Flow W)
  unfolding cross_flows
  scenario_flows spec =
      let end_ = spec.duration_s in
      let ew_flow = f.mul spec.base_flow spec.ew_bias in
      let we_flow = f.mul spec.base_flow (f.sub (f.ratio 1 1) spec.ew_bias) in
      let cross_flow = f.div (f.mul spec.base_flow spec.cross_ratio) (f.ratio 3 1) in
      let bus_ew = f.mul ew_flow spec.bus_ratio in
      let bus_we = f.mul we_flow spec.bus_ratio in
      let turn_flow = f.mul spec.base_flow spec.turn_ratio in
      flow end_ "flow_ew" "car" "ew_through" (prob ew_flow)
      ++ flow end_ "flow_we" "car" "we_through" (prob we_flow)
      ++ flow end_ "flow_bus_ew" "bus" "ew_through" (prob bus_ew)
      ++ flow end_ "flow_bus_we" "bus" "we_through" (prob bus_we)
      ++ cross_flows end_ cross_flow cross_nodes
      ++ flow end_ "flow_w_c1n" "car" "w_to_c1n" (prob (f.mul turn_flow (f.ratio 1 2)))
      ++ flow end_ "flow_c0s_e" "car" "c0s_to_e" (prob (f.mul turn_flow (f.ratio 1 2)))

  unfoldable pub scenario_to_routes : (W → W) → ScenarioSpec W → Demand W
  unfolding vtypes scenario_flows cross_routes
  scenario_to_routes round3 spec = record {
    vtypes = vtypes round3 spec.weather;
    routes = all_routes;
    flows = scenario_flows spec;
  }
