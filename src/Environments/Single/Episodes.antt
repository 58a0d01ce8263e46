-- ===== src/Environments/Single/Episodes.antt =====
-- An episode's account: over any steps in a row.
use semaforo.Prelude.{◌+◌, ◌≡◌, refl, List, [], ◌∷◌, map, length, All, arith}
use semaforo.Float.{Float, IsOrdered, sum_from, sum_f}
use semaforo.Environments.Signal.{TrafficSignal}
use semaforo.Environments.OwnState.Layout.{IsObservation, transform_observation-IsObservation}
use semaforo.Environments.Single.{SingleEnv, StepReply, Move, observe, reset, step}

module _ {W : Type 0} ⦃f : Float W⦄ where
  -- step, again and again
  unfoldable pub run_moves : SingleEnv W → List (Move W) → SingleEnv W × List (StepReply W)
  run_moves env [] = (env, [])
  run_moves env ((ts, sumo, action, now) ∷ moves) =
      let (env', reply) = step env ts sumo action now in
      let (last, replies) = run_moves env' moves in (last, reply ∷ replies)

  run_moves-step_count :
      (env : SingleEnv W) (moves : List (Move W))
      → (run_moves env moves).0.step_count ≡ env.step_count + length moves
  unfolding run_moves step
  run_moves-step_count env [] = omega arith
  run_moves-step_count env ((ts, sumo, action, now) ∷ moves) =
      omega (arith, run_moves-step_count (step env ts sumo action now).0 moves)

  run_moves-cumulative_reward :
      (env : SingleEnv W) (moves : List (Move W))
      → (run_moves env moves).0.cumulative_reward
        ≡ sum_from env.cumulative_reward (map (λ r. r.reward) (run_moves env moves).1)
  unfolding run_moves step sum_from
  run_moves-cumulative_reward env [] = refl
  run_moves-cumulative_reward env ((ts, sumo, action, now) ∷ moves) =
      run_moves-cumulative_reward (step env ts sumo action now).0 moves

module _ {W : Type 0} ⦃f : Float W⦄ (laws : IsOrdered W) where
  run_moves-IsObservation :
      (env : SingleEnv W) (moves : List (Move W))
      → All (λ r. IsObservation r.observation) (run_moves env moves).1
  unfolding run_moves step observe
  run_moves-IsObservation env [] = tt
  run_moves-IsObservation env ((ts, sumo, action, now) ∷ moves) = (
    (transform_observation-IsObservation laws _ _).1,
    run_moves-IsObservation (step env ts sumo action now).0 moves,
  )

  -- Whatever SUMO answers, and whichever reward is chosen: after a reset and any number of steps, the
  -- environment has counted the steps, its cumulative reward is the sum of the rewards that it gave,
  -- in their order, and each observation had sixteen numbers from 0 to 1.
  pub run_moves-reset :
      (env : SingleEnv W) (raw : List W) (ts : TrafficSignal W) (now : W) (moves : List (Move W))
      → let (last, replies) = run_moves (reset env raw ts now).0 moves in
        (last.step_count ≡ length moves)
        × (last.cumulative_reward ≡ sum_f (map (λ r. r.reward) replies))
        × All (λ r. IsObservation r.observation) replies
  unfolding reset observe sum_f
  run_moves-reset env raw ts now moves = (
    omega (arith, run_moves-step_count (reset env raw ts now).0 moves),
    run_moves-cumulative_reward (reset env raw ts now).0 moves,
    run_moves-IsObservation (reset env raw ts now).0 moves,
  )
