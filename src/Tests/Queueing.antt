-- ===== src/Tests/Queueing.antt =====
-- Examples of Webster's formulas, and of the queue with the rates of its own documentation.
use semaforo.Prelude.{◌≡◌, refl, some, List, [], ◌∷◌, ℤ}
use semaforo.Network.Graph.{◌>>=◌}
use semaforo.Float.Fixed.{fixed, fixed-IsOrdered}
use semaforo.Queueing.{
  webster_optimal_cycle, webster_delay, allocate_green_times, effective_green, md1_queue, avg_delay,
}
use semaforo.Queueing.Greens.{IsSplit, allocate_green_times-IsSplit}

abbrev ratios : List ℤ
ratios = fixed.ratio 3 10 ∷ fixed.ratio 2 10 ∷ []

webster_optimal_cycle_run :
    webster_optimal_cycle (fixed.ratio 6 10) (fixed.ratio 12 1) ≡ some (fixed.ratio 575 10)
unfolding webster_optimal_cycle
webster_optimal_cycle_run = refl

webster_delay_run :
    webster_delay (fixed.ratio 60 1) (fixed.ratio 5 10) (fixed.ratio 8 10) (fixed.ratio 25 100)
    ≡ some (fixed.ratio 189 10)
unfolding webster_delay
webster_delay_run = refl

md1_queue_run :
    (md1_queue (fixed.ratio 3 10) (fixed.ratio 5 10) >>= (λ q. some (avg_delay q)))
    ≡ some (fixed.ratio 15 10)
unfolding md1_queue avg_delay
md1_queue_run = refl

allocate_green_times-IsSplit_example :
    (greens : List ℤ) × (allocate_green_times (fixed.ratio 60 1) ratios (fixed.ratio 3 1)
      ≡ some greens)
    × IsSplit (effective_green (fixed.ratio 60 1) ratios (fixed.ratio 3 1)) ratios greens
unfolding semaforo.Float.sum_f
allocate_green_times-IsSplit_example =
    allocate_green_times-IsSplit fixed-IsOrdered (fixed.ratio 60 1) (fixed.ratio 3 1) ratios refl
      refl (refl, (refl, tt))
