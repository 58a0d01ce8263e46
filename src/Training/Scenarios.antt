-- ===== src/Training/Scenarios.antt =====
-- brain/src/training/scenarios.py: the scenarios, how an episode draws one, and the demand that it
-- makes of it (Routes). `random.Random` is a parameter; an IndexError is `none`.
pub mod Worlds
pub mod Routes
pub mod Sane
pub mod Drawn
pub mod Emitted
use semaforo.Prelude.{
  ℕ, zero, suc, ◌+◌, ◌-◌, String, Option, none, some, List, [], ◌∷◌, ◌++◌, map, if◌then◌else◌, Bool,
  ◌||◌, ◌==◌, length, get_elem?, ℤ, pos, negsuc, leb,
}
use semaforo.Prelude.Dict
use semaforo.Prelude.Dict.{Dict}
use semaforo.Float.{Float, max_f, min_f}
use semaforo.Network.Graph.{◌>>=◌, or_else}

pub record WeatherProfile (W : Type 0) : Type 0 where
  pub name : String
  pub speed_factor : W
  pub accel_factor : W
  pub decel_factor : W
  pub min_gap_factor : W
  pub sigma : W

pub record ScenarioSpec (W : Type 0) : Type 0 where
  pub name : String
  pub duration_s : ℕ
  pub base_flow : W
  pub ew_bias : W
  pub cross_ratio : W
  pub bus_ratio : W
  pub turn_ratio : W
  pub weather : WeatherProfile W
  pub seed : ℕ
  pub jitter : Dict W

-- Python's `random.Random`: each call gives a value and the generator after it. The calls that
-- choose from a list give the place of what they choose.
pub record Random (R W : Type 0) : Type 0 where
  pub uniform : R → W → W → W × R
  pub randint : R → ℕ → ℕ → ℕ × R
  pub random : R → W × R
  pub choice : R → ℕ → ℕ × R
  pub choices : R → List W → ℕ × R

module _ {R W : Type 0} ⦃f : Float W⦄ (rng : Random R W) where
  -- `jit`, the inner function of `randomize`.
  unfoldable pub jit : Dict W → W → String → W → W → R → W × R
  jit jitter value key lo hi r =
      let half = or_else (Dict.get jitter key) (f.ratio 0 1) in
      if f.le half (f.ratio 0 1)
      then (value, r)
      else let (u, r') = rng.uniform r (f.neg half) half in
        (min_f hi (max_f lo (f.add value u)), r')

  unfoldable pub randomize : ScenarioSpec W → R → ScenarioSpec W × R
  unfolding jit
  randomize spec r =
      let (base_flow, r1) =
        jit spec.jitter spec.base_flow "base_flow" (f.ratio 10 1) (f.ratio 2500 1) r in
      let (ew_bias, r2) =
        jit spec.jitter spec.ew_bias "ew_bias" (f.ratio 2 100) (f.ratio 98 100) r1 in
      let (cross_ratio, r3) =
        jit spec.jitter spec.cross_ratio "cross_ratio" (f.ratio 2 100) (f.ratio 8 10) r2 in
      let (turn_ratio, r4) =
        jit spec.jitter spec.turn_ratio "turn_ratio" (f.ratio 0 1) (f.ratio 5 10) r3 in
      let (seed, r5) = rng.randint r4 0 2147483647 in
      (
        record spec {
          base_flow = base_flow;
          ew_bias = ew_bias;
          cross_ratio = cross_ratio;
          turn_ratio = turn_ratio;
          seed = seed;
        },
        r5,
      )

  -- randomize(rng.choice(list(pool)), rng)
  unfoldable pub draw : List (ScenarioSpec W) → R → Option (ScenarioSpec W × R)
  unfolding randomize
  draw pool r =
      let (i, r') = rng.choice r (length pool) in
      do base ← get_elem? pool i; some (randomize base r')
