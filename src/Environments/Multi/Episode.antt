-- ===== src/Environments/Multi/Episode.antt =====
-- How `MultiIntersectionEnv.reset` (brain/src/environments/multi_intersection.py) chooses the demand of
-- an episode: a scenario that it is given, a route file that it is given, a random scenario, or the
-- default. The directory of the scenarios is a text, and the file's contents are left out.
pub mod Chosen
use semaforo.Prelude.{
  ℕ, String, Option, none, some, if◌then◌else◌, Bool, true, false, not, ◌&&◌, ℤ, pos, is_some,
}
use semaforo.Prelude.Text.{◌+++◌, show_int, is_empty}
use semaforo.Float.{Float, lt}
use semaforo.Network.Graph.{◌>>=◌}
use semaforo.Training.Scenarios.{ScenarioSpec, Random}
use semaforo.Training.Scenarios.Worlds.{sample_scenario, sample_mixed_task_scenario}

-- The parameters of `__init__` that a reset reads.
pub record EpisodeConfig (W : Type 0) : Type 0 where
  pub default_route : String
  pub scenario_dir : String
  pub auto_randomize : Bool
  pub rehearsal_ratio : W

pub record ResetOptions (W : Type 0) : Type 0 where
  pub scenario : Option (ScenarioSpec W)
  pub route_file : Option String

-- What the new `SumoEnvironment` is given.
pub record Episode : Type 0 where
  pub route_file : String
  pub seed : Option ℕ

-- options.get("route_file"), unless it is empty
abbrev pub given_route : Option String → Option String
given_route none = none
given_route (some path) = if is_empty path then none else some path

module _ {W : Type 0} where
  -- The path that `write_scenario_routes` writes to and returns.
  unfoldable pub scenario_path : String → ScenarioSpec W → String
  scenario_path out_dir spec =
      out_dir +++ "/" +++ spec.name +++ "_" +++ show_int (pos spec.seed) +++ ".rou.xml"

  -- `seed`, or else that of the scenario
  abbrev pub seed_or : Option ℕ → ScenarioSpec W → Option ℕ
  seed_or none spec = some spec.seed
  seed_or (some seed) spec = some seed

  -- The file and the seed, once the scenario is known.
  unfoldable pub episode_of :
      EpisodeConfig W → Option (ScenarioSpec W) → Option String → Option ℕ → Episode
  unfolding scenario_path
  episode_of cfg (some spec) path seed = record {
    route_file = scenario_path cfg.scenario_dir spec;
    seed = seed_or seed spec;
  }
  episode_of cfg none (some path) seed = record { route_file = path; seed = seed }
  episode_of cfg none none seed = record { route_file = cfg.default_route; seed = seed }

module _ {R W : Type 0} ⦃f : Float W⦄ (rng : Random R W) where
  unfoldable pub draw_scenario : EpisodeConfig W → ℤ → R → Option (ScenarioSpec W × R)
  draw_scenario cfg stage r =
      if lt (f.ratio 0 1) cfg.rehearsal_ratio
      then sample_mixed_task_scenario rng stage cfg.rehearsal_ratio (f.ratio 1 2) r
      else sample_scenario rng (some stage) none r

  -- The scenario of the episode, if it has one.
  unfoldable pub pick_scenario :
      EpisodeConfig W → ℤ → ResetOptions W → R → Option (Option (ScenarioSpec W) × R)
  unfolding draw_scenario
  pick_scenario cfg stage options r =
      if not (is_some options.scenario)
        && cfg.auto_randomize
        && not (is_some (given_route options.route_file))
      then (do (spec, r') ← draw_scenario cfg stage r; some (some spec, r'))
      else some (options.scenario, r)

  unfoldable pub choose_episode :
      EpisodeConfig W → ℤ → ResetOptions W → Option ℕ → R → Option (Episode × R)
  unfolding pick_scenario episode_of
  choose_episode cfg stage options seed r = do
    (scenario, r') ← pick_scenario cfg stage options r
    some (episode_of cfg scenario (given_route options.route_file) seed, r')
