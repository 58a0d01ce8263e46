-- ===== src/Training/Scenarios/Worlds.antt =====
-- The scenarios of brain/src/training/scenarios.py and the stages of the curriculum, from easy to
-- chaotic. A literal such as 0.85 is the float nearest to 85 / 100.
use semaforo.Prelude.{
  ℕ, zero, suc, String, Option, none, some, List, [], ◌∷◌, ◌++◌, if◌then◌else◌, get_elem?, ℤ, pos,
  negsuc, leb, ◌==◌,
}
use semaforo.Prelude.Dict.{Dict}
use semaforo.Float.{Float}
use semaforo.Network.Graph.{◌>>=◌}
use semaforo.Training.Scenarios.{WeatherProfile, ScenarioSpec, Random, draw}

-- max(0, min(stage, len(CURRICULUM) - 1))
unfoldable pub clamp_stage : ℤ → ℕ
clamp_stage (negsuc n) = 0
clamp_stage (pos n) = if leb n 2 then n else 2

module _ {W : Type 0} ⦃f : Float W⦄ where
  abbrev pub weather_of : String → ℕ → ℕ → ℕ → ℕ → ℕ → WeatherProfile W
  weather_of name speed accel decel min_gap sigma = record {
    name = name;
    speed_factor = f.ratio speed 100;
    accel_factor = f.ratio accel 100;
    decel_factor = f.ratio decel 100;
    min_gap_factor = f.ratio min_gap 100;
    sigma = f.ratio sigma 100;
  }

  abbrev pub weather_clear : WeatherProfile W
  weather_clear = weather_of "clear" 100 100 100 100 50

  abbrev pub weather_heat_haze : WeatherProfile W
  weather_heat_haze = weather_of "heat_haze" 105 110 100 90 60

  abbrev pub weather_rain : WeatherProfile W
  weather_rain = weather_of "rain" 80 85 80 140 60

  abbrev pub weather_sudestada : WeatherProfile W
  weather_sudestada = weather_of "sudestada" 55 65 60 200 75

  -- A scenario of an hour with seed 0; the ratios are in hundredths.
  abbrev pub scenario : String → ℕ → ℕ → ℕ → ℕ → ℕ → WeatherProfile W → Dict W → ScenarioSpec W
  scenario name base_flow ew_bias cross_ratio bus_ratio turn_ratio weather jitter = record {
    name = name;
    duration_s = 3600;
    base_flow = f.ratio base_flow 1;
    ew_bias = f.ratio ew_bias 100;
    cross_ratio = f.ratio cross_ratio 100;
    bus_ratio = f.ratio bus_ratio 100;
    turn_ratio = f.ratio turn_ratio 100;
    weather = weather;
    seed = 0;
    jitter = jitter;
  }

  abbrev pub winter_quiet : ScenarioSpec W
  winter_quiet =
      scenario "winter_quiet" 120 50 30 5 12 weather_clear
        (("base_flow", f.ratio 40 1) ∷ ("ew_bias", f.ratio 5 100) ∷ [])

  abbrev pub winter_night_empty : ScenarioSpec W
  winter_night_empty =
      scenario "winter_night_empty" 25 50 40 0 10 weather_clear (("base_flow", f.ratio 15 1) ∷ [])

  abbrev pub shoulder_balanced : ScenarioSpec W
  shoulder_balanced = scenario "shoulder_balanced" 500 50 28 4 12 weather_clear (
      ("base_flow", f.ratio 120 1)
      ∷ ("ew_bias", f.ratio 8 100)
      ∷ ("cross_ratio", f.ratio 5 100)
      ∷ [])

  abbrev pub rain_moderate : ScenarioSpec W
  rain_moderate =
      scenario "rain_moderate" 450 55 25 4 12 weather_rain
        (("base_flow", f.ratio 120 1) ∷ ("ew_bias", f.ratio 1 10) ∷ [])

  abbrev pub summer_exodus_beach : ScenarioSpec W
  summer_exodus_beach = scenario "summer_exodus_beach" 1100 85 18 5 8 weather_heat_haze (
      ("base_flow", f.ratio 250 1)
      ∷ ("ew_bias", f.ratio 7 100)
      ∷ ("turn_ratio", f.ratio 4 100)
      ∷ [])

  abbrev pub summer_return_downtown : ScenarioSpec W
  summer_return_downtown =
      scenario "summer_return_downtown" 1050 15 20 5 10 weather_heat_haze
        (("base_flow", f.ratio 250 1) ∷ ("ew_bias", f.ratio 7 100) ∷ [])

  abbrev pub sudestada_storm : ScenarioSpec W
  sudestada_storm = scenario "sudestada_storm" 550 60 30 4 15 weather_sudestada (
      ("base_flow", f.ratio 200 1)
      ∷ ("ew_bias", f.ratio 15 100)
      ∷ ("cross_ratio", f.ratio 8 100)
      ∷ [])

  abbrev pub incident_asymmetric_spike : ScenarioSpec W
  incident_asymmetric_spike = scenario "incident_asymmetric_spike" 1300 95 10 3 20 weather_clear (
      ("base_flow", f.ratio 300 1)
      ∷ ("ew_bias", f.ratio 4 100)
      ∷ ("turn_ratio", f.ratio 6 100)
      ∷ [])

  abbrev pub curriculum : List (List (ScenarioSpec W))
  curriculum =
      (winter_quiet ∷ winter_night_empty ∷ shoulder_balanced ∷ [])
      ∷ (shoulder_balanced ∷ rain_moderate ∷ summer_return_downtown ∷ [])
      ∷ (summer_exodus_beach ∷ summer_return_downtown ∷ sudestada_storm ∷ incident_asymmetric_spike
          ∷ [])
      ∷ []

  abbrev pub all_scenarios : List (ScenarioSpec W)
  all_scenarios =
      winter_quiet ∷ winter_night_empty ∷ shoulder_balanced ∷ rain_moderate ∷ summer_exodus_beach
      ∷ summer_return_downtown ∷ sudestada_storm ∷ incident_asymmetric_spike ∷ []

  -- CURRICULUM[i]
  unfoldable pub stage_pool : ℕ → Option (List (ScenarioSpec W))
  stage_pool i = get_elem? curriculum i

  -- [s for i in range(stage + 1) for s in CURRICULUM[i]]
  unfoldable pub pool_upto : ℕ → Option (List (ScenarioSpec W))
  unfolding stage_pool
  pool_upto zero = stage_pool zero
  pool_upto (suc stage) = do
    before ← pool_upto stage
    here ← stage_pool (suc stage)
    some (before ++ here)

  -- decay ** n
  unfoldable pub power : W → ℕ → W
  power decay zero = f.ratio 1 1
  power decay (suc n) = f.mul (power decay n) decay

  -- [decay ** (stage - 1 - k) for k in range(stage)]
  unfoldable pub weights : W → ℕ → List W
  unfolding power
  weights decay zero = []
  weights decay (suc n) = power decay n ∷ weights decay n

module _ {R W : Type 0} ⦃f : Float W⦄ (rng : Random R W) where
  unfoldable pub sample_scenario :
      Option ℤ → Option (List (ScenarioSpec W)) → R → Option (ScenarioSpec W × R)
  unfolding clamp_stage pool_upto
  sample_scenario stage (some pool) r = draw rng pool r
  sample_scenario none none r = draw rng all_scenarios r
  sample_scenario (some stage) none r = do pool ← pool_upto (clamp_stage stage); draw rng pool r

  unfoldable pub sample_mixed_task_scenario : ℤ → W → W → R → Option (ScenarioSpec W × R)
  unfolding sample_scenario weights stage_pool clamp_stage
  sample_mixed_task_scenario stage rehearsal_ratio decay r =
      let current = clamp_stage stage in
      if current == 0
      then (do pool ← stage_pool current; sample_scenario none (some pool) r)
      else let (u, r') = rng.random r in
        if f.le rehearsal_ratio u
        then (do pool ← stage_pool current; sample_scenario none (some pool) r')
        else let (past, r'') = rng.choices r' (weights decay current) in
          (do pool ← stage_pool past; sample_scenario none (some pool) r'')
