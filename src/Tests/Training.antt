-- ===== src/Tests/Training.antt =====
-- Examples of the training scenarios: a generator that chooses the last element of a list, and the
-- first of a weighted one.
use semaforo.Prelude.{true, ℕ, suc, ◌-◌, none, some, All, ℤ, arith}
use semaforo.Float.Fixed.{fixed, fixed-IsOrdered}
use semaforo.Environments.Multi.Episode.{EpisodeConfig, ResetOptions}
use semaforo.Training.Scenarios.{Random}
use semaforo.Training.Scenarios.Worlds.{sudestada_storm}
use semaforo.Training.Scenarios.Routes.{scenario_to_routes}
use semaforo.Training.Scenarios.Drawn.{IsRandom}
use semaforo.Training.Scenarios.Emitted.{IsEmitted, scenario_to_routes-IsEmitted}

-- Its state counts the calls.
abbrev counting : Random ℕ ℤ
counting = record {
  uniform = λ r a b. (b, suc r);
  randint = λ r a b. (r, suc r);
  random = λ r. (fixed.ratio 1 10, suc r);
  choice = λ r n. (n - 1, suc r);
  choices = λ r ws. (0, suc r);
}

counting-IsRandom : IsRandom counting
counting-IsRandom = record {
  choice_lt = λ r n h. omega (arith, h);
  choices_lt = λ r decay n h k. k;
}

scenario_to_routes-IsEmitted_example :
    All
      (IsEmitted {W = ℤ} (scenario_to_routes (λ x. x) sudestada_storm))
      (scenario_to_routes (λ x. x) sudestada_storm).flows
scenario_to_routes-IsEmitted_example =
    scenario_to_routes-IsEmitted fixed-IsOrdered (λ x. x) sudestada_storm

abbrev randomizing : EpisodeConfig ℤ
randomizing = record {
  default_route = "corridor.rou.xml";
  scenario_dir = "/tmp/semaforo_scenarios";
  auto_randomize = true;
  rehearsal_ratio = fixed.ratio 1 4;
}

abbrev no_options : ResetOptions ℤ
no_options = record { scenario = none; route_file = some "" }
