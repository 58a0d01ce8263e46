-- ===== src/Network/Emergency/Timing.antt =====
-- When the commands of an emergency take effect.
use semaforo.Prelude.{
  ℕ, suc, ◌≡◌, String, true, some, List, [], ◌∷◌, map, arith, ℤ, leb_ℤ, Bool-cases, inl, inr,
}
use semaforo.Float.{Float, IsOrdered, ◌≼◌, lt}
use semaforo.Float.Order.{le-add, div_nonneg, mul_mono_left}
use semaforo.Network.Message.{Message, command, plan, pulse, millis}
use semaforo.Network.DiGraph.{DiGraph}
use semaforo.Network.Graph.{GraphManager, get_edge_distance, get_edge_speed_limit}
use semaforo.Network.Emergency.{override, travel_time, next_delay, clear_from, clear_path}

-- Times that never go back.
abbrev pub Ascending : List ℤ → Type 0
Ascending [] = Unit
Ascending (x ∷ []) = Unit
Ascending (x ∷ y ∷ ys) = (leb_ℤ x y ≡ true) × Ascending (y ∷ ys)

abbrev pub timestamp_of : {W : Type 0} → Message W → ℤ
timestamp_of m = elim m.payload [
  | command c ↦ c.timestamp
  | plan p ↦ p.timestamp
  | pulse p ↦ p.timestamp
]

module _ {W : Type 0} ⦃f : Float W⦄ (laws : IsOrdered W) where
  open laws use {ratio_mono, truncate_mono}

  millis_mono : (a b : W) → a ≼ b → leb_ℤ (millis a) (millis b) ≡ true
  millis_mono a b h = truncate_mono _ _ (
      mul_mono_left laws (f.ratio 1000 1) a b
        (ratio_mono 0 1 1000 1 (omega arith) (omega arith) (omega arith)) h)

module _ {W G : Type 0} ⦃f : Float W⦄ ⦃g : DiGraph W G⦄ (laws : IsOrdered W) where
  open laws use {le_refl, add_mono}

  travel_time_nonneg :
      (m : GraphManager W G) (u v : String)
      → f.ratio 0 1 ≼ get_edge_distance m u v
      → f.ratio 0 1 ≼ travel_time m u v
  unfolding travel_time
  travel_time_nonneg m u v h =
      elim (Bool-cases (lt (f.ratio 0 1) (f.div (get_edge_speed_limit m u v) (f.ratio 36 10)))) [
        | inl moving ↦ rw moving (div_nonneg laws _ _ moving h)
        | inr still ↦ rw still (le_refl _)
      ]

  module _ (m : GraphManager W G) (id direction : String) (now : ℕ → W)
      (forward : (u v : String) → f.ratio 0 1 ≼ get_edge_distance m u v)
      (ticks : (i : ℕ) → now i ≼ now (suc i)) where
    clear_from-Ascending :
        (path : List String) (i : ℕ) (u : String) (delay : W)
        → Ascending (
            millis (f.add (now i) delay)
            ∷ map timestamp_of (clear_from m id direction now (suc i) (some u) delay path))
    unfolding clear_from next_delay override
    clear_from-Ascending [] i u delay = tt
    clear_from-Ascending (x ∷ path) i u delay = (
      millis_mono laws _ _ (
          add_mono _ _ _ _ (ticks i)
            (le-add laws delay _ (travel_time_nonneg m u x (forward u x)))),
      clear_from-Ascending path (suc i) x _,
    )

    -- If no road has a negative length and the clock does not go back, the commands of a path carry
    -- times that do not go back either: each intersection is cleared no earlier than the one before.
    pub clear_path-Ascending :
        (path : List String) → Ascending (map timestamp_of (clear_path m id direction now path))
    unfolding clear_path clear_from next_delay override
    clear_path-Ascending [] = tt
    clear_path-Ascending (x ∷ path) = clear_from-Ascending path 0 x (f.ratio 0 1)
