-- ===== src/Tests/Rewards.antt =====
-- Examples of the reward functions, on numbers of six decimals.
use semaforo.Prelude.{ℕ, refl, List, [], ◌∷◌, some, ℤ}
use semaforo.Float.Fixed.{fixed, fixed-IsOrdered}
use semaforo.Rewards.Base.{array, IsPenaltyWithin}
use semaforo.Rewards.Composite.{default_weights, compute, IsWeighted, compute-IsPenaltyWithin}

abbrev tenths : ℕ → ℤ
tenths n = fixed.ratio n 10

abbrev queues : List ℤ
queues = tenths 0 ∷ tenths 5 ∷ tenths 0 ∷ tenths 2 ∷ []

compute-IsPenaltyWithin_example :
    IsPenaltyWithin
      (tenths 10)
      (compute default_weights (array queues) 0 1 (some (tenths 60)) (some (tenths 9 ∷ [])))
compute-IsPenaltyWithin_example =
    compute-IsPenaltyWithin fixed-IsOrdered default_weights default_weights-IsWeighted
      (array queues) 0 1 (some (tenths 60)) (some (tenths 9 ∷ []))
  where
    default_weights-IsWeighted : IsWeighted fixed-IsOrdered (default_weights {W = ℤ})
    default_weights-IsWeighted = record {
      pressure = refl;
      queue = refl;
      flickering = refl;
      spillback = refl;
    }
