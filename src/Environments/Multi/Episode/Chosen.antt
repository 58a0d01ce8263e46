-- ===== src/Environments/Multi/Episode/Chosen.antt =====
-- The demand of an episode, for each kind of reset.
use mathlib.Core.Path.{subst}
use semaforo.Prelude.{
  ℕ, ◌≡◌, refl, sym, String, Option, none, some, Bool, true, false, inl, inr, Bool-cases,
  Option-cases, ℤ, arith, not, ◌&&◌, is_some,
}
use semaforo.Float.{Float, IsOrdered, lt}
use semaforo.Training.Scenarios.{ScenarioSpec, Random}
use semaforo.Training.Scenarios.Sane.{IsSane}
use semaforo.Training.Scenarios.Drawn.{
  IsRandom, sample_scenario-IsSane, sample_mixed_task_scenario-IsDrawn,
}
use semaforo.Environments.Multi.Episode.{
  EpisodeConfig, ResetOptions, Episode, given_route, scenario_path, seed_or, episode_of,
  draw_scenario, pick_scenario, choose_episode,
}

module _ {W : Type 0} ⦃f : Float W⦄ where
  -- The episode's file is that of the scenario, and its seed the one that is asked for, or else the
  -- scenario's.
  abbrev pub IsOf : EpisodeConfig W → Option ℕ → ScenarioSpec W → Episode → Type 0
  IsOf cfg seed spec ep =
      (ep.route_file ≡ scenario_path cfg.scenario_dir spec) × (ep.seed ≡ seed_or seed spec)

  -- By the scenario that is given, the route file that is given, and whether to randomize.
  abbrev pub IsChosen :
      EpisodeConfig W → Option ℕ → Option (ScenarioSpec W) → Option String → Bool → Episode → Type 0
  IsChosen cfg seed (some spec) path auto ep = IsOf cfg seed spec ep
  IsChosen cfg seed none (some path) auto ep = (ep.route_file ≡ path) × (ep.seed ≡ seed)
  IsChosen cfg seed none none false ep = (ep.route_file ≡ cfg.default_route) × (ep.seed ≡ seed)
  IsChosen cfg seed none none true ep =
      (spec : ScenarioSpec W) × IsSane spec × IsOf cfg seed spec ep

and_false : (b : Bool) → (b && false) ≡ false
and_false true = refl
and_false false = refl

module _ {R W : Type 0} ⦃f : Float W⦄ (laws : IsOrdered W) (rng : Random R W) where
  draw_scenario-IsSane :
      (cfg : EpisodeConfig W) (stage : ℤ) (r : R)
      → IsRandom rng
      → (spec : ScenarioSpec W) × (r' : R) × (draw_scenario rng cfg stage r ≡ some (spec, r'))
        × IsSane spec
  unfolding draw_scenario
  draw_scenario-IsSane cfg stage r random =
      elim (Bool-cases (lt (f.ratio 0 1) cfg.rehearsal_ratio)) [
        | inl e ↦
            let (k, h, (spec, r', at, sane, there)) =
              sample_mixed_task_scenario-IsDrawn laws rng stage cfg.rehearsal_ratio (f.ratio 1 2) r
                random (laws.ratio_pos 1 2 (omega arith) (omega arith)) in
            (spec, r', rw (draw_scenario, e) at, sane)
        | inr e ↦
            let (pool, spec, r', p, at, sane, there) =
              sample_scenario-IsSane laws rng stage r random in
            (spec, r', rw (draw_scenario, e) at, sane)
      ]

  -- Whether a reset draws a scenario.
  abbrev draws : EpisodeConfig W → ResetOptions W → Bool
  draws cfg options =
      not (is_some options.scenario)
      && cfg.auto_randomize
      && not (is_some (given_route options.route_file))

  choose_known :
      (cfg : EpisodeConfig W) (stage : ℤ) (options : ResetOptions W) (seed : Option ℕ) (r : R)
      → draws cfg options ≡ false
      → choose_episode rng cfg stage options seed r
        ≡ some (episode_of cfg options.scenario (given_route options.route_file) seed, r)
  unfolding choose_episode pick_scenario
  choose_known cfg stage options seed r h = rw (choose_episode, pick_scenario, h) refl

  choose_drawn :
      (cfg : EpisodeConfig W) (stage : ℤ) (options : ResetOptions W) (seed : Option ℕ) (r : R)
      (spec : ScenarioSpec W) (r' : R)
      → draws cfg options ≡ true
      → draw_scenario rng cfg stage r ≡ some (spec, r')
      → choose_episode rng cfg stage options seed r
        ≡ some (episode_of cfg (some spec) (given_route options.route_file) seed, r')
  unfolding choose_episode pick_scenario
  choose_drawn cfg stage options seed r spec r' h e = rw (choose_episode, pick_scenario, h, e) refl

  -- A reset always finds its demand. A scenario that is given goes first, then a route file that is
  -- given and not empty; else the default route, or a random scenario with its knobs in range, if the
  -- environment randomizes. A scenario brings its own file, and its seed where none is asked for.
  pub choose_episode-IsChosen :
      (cfg : EpisodeConfig W) (stage : ℤ) (options : ResetOptions W) (seed : Option ℕ) (r : R)
      → IsRandom rng
      → (ep : Episode) × (r' : R) × (choose_episode rng cfg stage options seed r ≡ some (ep, r'))
        × IsChosen cfg seed options.scenario (given_route options.route_file) cfg.auto_randomize ep
  unfolding episode_of
  choose_episode-IsChosen cfg stage options seed r random = elim (Option-cases options.scenario) [
    | inr (spec, s) ↦ (
      episode_of cfg options.scenario (given_route options.route_file) seed,
      r,
      choose_known cfg stage options seed r (rw s refl),
      rw s (refl, refl),
    )
    | inl s ↦ elim (Option-cases (given_route options.route_file)) [
      | inr (path, p) ↦ (
        episode_of cfg options.scenario (given_route options.route_file) seed,
        r,
        choose_known cfg stage options seed r (rw (s, p) (and_false cfg.auto_randomize)),
        rw (s, p) (refl, refl),
      )
      | inl p ↦ elim (Bool-cases cfg.auto_randomize) [
        | inl a ↦
            let (spec, r', at, sane) = draw_scenario-IsSane cfg stage r random in
            (
              episode_of cfg (some spec) (given_route options.route_file) seed,
              r',
              choose_drawn cfg stage options seed r spec r' (rw (s, p, a) refl) at,
              rw (s, p)
                  (subst (λ b. IsChosen cfg seed none none b (episode_of cfg (some spec) none seed))
                    (sym a) (spec, sane, (refl, refl))),
            )
        | inr a ↦ (
          episode_of cfg options.scenario (given_route options.route_file) seed,
          r,
          choose_known cfg stage options seed r (rw (s, p, a) refl),
          rw (s, p, a) (refl, refl),
        )
      ]
    ]
  ]
