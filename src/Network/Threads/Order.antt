-- ===== src/Network/Threads/Order.antt =====
-- The numbers that several threads publish.
use mathlib.Core.Path.{subst}
use semaforo.Prelude.{
  ℕ, ◌+◌, ◌≤◌, ◌<◌, ◌≡◌, ◌≢◌, refl, Option, none, some, List, [], ◌∷◌, arith, ◌==◌, All, Bool-cases,
  inl, inr,
}
use semaforo.Network.Threads.{interleave, init, put_at}
use semaforo.Network.Threads.Atomic.{Spec, spec_turn, spec_step, spec_run, spec_init}
use semaforo.Network.Threads.Refinement.{interleave-Refines, turns}

module _ {ℓ} {P : Type ℓ} where
  -- Thread `i` may publish `v` after `d`.
  abbrev pub Follows : ℕ → ℕ → ℕ × ℕ × P → Type 0
  Follows i v d = (d.1 ≢ v) × (d.0 ≡ i → d.1 < v)

  -- Newest first: the numbers are all different, and those of one thread increase.
  abbrev pub Ordered : List (ℕ × ℕ × P) → Type 0
  Ordered [] = Unit
  Ordered ((i, v, p) ∷ sent) = All (Follows i v) sent × Ordered sent

  abbrev pub Within : ℕ → ℕ → ℕ × ℕ × P → Type 0
  Within start next d = (start ≤ d.1) × (d.1 < next)

  record Numbered (start : ℕ) (s : Spec P) : Type 0 where
    low : start ≤ s.next
    within : All (Within start s.next) s.sent
    ordered : Ordered s.sent
    held_within : (i v : ℕ) → s.held i ≡ some v → (start ≤ v) × (v < s.next)
    held_follows : (i v : ℕ) → s.held i ≡ some v → All (Follows i v) s.sent
    held_once : (i j v : ℕ) → s.held i ≡ some v → s.held j ≡ some v → i ≡ j

  Within-add_one :
      (start next : ℕ) (sent : List (ℕ × ℕ × P))
      → All (Within start next) sent
      → All (Within start (next + 1)) sent
  Within-add_one start next [] h = tt
  Within-add_one start next (d ∷ sent) h = (omega arith, Within-add_one start next sent h.1)

  Within-Follows :
      (start next i : ℕ) (sent : List (ℕ × ℕ × P))
      → All (Within start next) sent
      → All (Follows i next) sent
  Within-Follows start next i [] h = tt
  Within-Follows start next i (d ∷ sent) h =
      ((omega arith, λ e. omega arith), Within-Follows start next i sent h.1)

  module _ (start i : ℕ) (s : Spec P) (inv : Numbered start s) where
    open inv use {low, within, ordered, held_within, held_follows, held_once}

    draw-Numbered :
        Numbered start (record s { next = s.next + 1; held = put_at s.held i (some s.next) })
    draw-Numbered = record {
      low = omega arith;
      within = Within-add_one start s.next s.sent within;
      ordered = ordered;
      held_within = λ j v h. ground (arith, held_within j v);
      held_follows = λ j v h. elim (Bool-cases (j == i)) [
        | inl e ↦
            let drawn : s.next ≡ v = ground arith in
            rw (← drawn) (Within-Follows start s.next j s.sent within)
        | inr e ↦ held_follows j v (rw e at h)
      ];
      held_once = λ j k v h l. ground (arith, held_once j k v, held_within j v, held_within k v);
    }

    publish-Numbered :
        (v : ℕ) (p : P) (ps : List P)
        → s.held i ≡ some v
        → Numbered start (record s {
          held = put_at s.held i none;
          todo = put_at s.todo i ps;
          sent = (i, v, p) ∷ s.sent;
        })
    publish-Numbered v p ps e = record {
      low = low;
      within = (held_within i v e, within);
      ordered = (held_follows i v e, ordered);
      held_within = λ j w h. ground (arith, held_within j w);
      held_follows = λ j w h. elim (Bool-cases (j == i)) [
        | inl at ↦ let absurd : ⊥ = ground arith in elim absurd [ ]
        | inr off ↦
            let h' : s.held j ≡ some w = rw off at h in
            ((λ same. ground (arith, held_once i j v), λ same. ground arith), held_follows j w h')
      ];
      held_once = λ j k w h l. ground (arith, held_once j k w);
    }

    turn-Numbered :
        (held : Option ℕ) (todo : List P)
        → s.held i ≡ held
        → Numbered start (spec_turn i held todo s)
    unfolding spec_turn
    turn-Numbered held [] e = inv
    turn-Numbered none (p ∷ ps) e = draw-Numbered
    turn-Numbered (some v) (p ∷ ps) e = publish-Numbered v p ps e

  spec_run-Numbered :
      (start : ℕ) (schedule : List ℕ) (s : Spec P)
      → Numbered start s
      → Numbered start (spec_run schedule s)
  unfolding spec_run spec_step
  spec_run-Numbered start [] s inv = inv
  spec_run-Numbered start (i ∷ schedule) s inv =
      spec_run-Numbered start schedule (spec_step i s)
        (turn-Numbered start i s inv (s.held i) (s.todo i) refl)

  init-Numbered : (start : ℕ) (todo : ℕ → List P) → Numbered start (spec_init start todo)
  unfolding spec_init
  init-Numbered start todo = record {
    low = omega arith;
    within = tt;
    ordered = tt;
    held_within = λ i v h. cc;
    held_follows = λ i v h. tt;
    held_once = λ i j v h k. cc;
  }

  -- However the threads are scheduled, the numbers that they have published are all different and lie
  -- between the counter's start and its present value, and each thread has published its own in
  -- increasing order.
  pub interleave-Ordered :
      (start : ℕ) (todo : ℕ → List P) (schedule : List ℕ)
      → let m = interleave schedule (init start todo) in
        Ordered m.sent × All (Within start m.next) m.sent
  interleave-Ordered start todo schedule =
      let m = init start todo in
      let same = interleave-Refines start todo schedule in
      let inv =
        spec_run-Numbered start (turns schedule m) (spec_init start todo)
          (init-Numbered start todo) in
      (
        subst Ordered same.same_sent inv.ordered,
        subst (λ n. All (Within start n) (interleave schedule m).sent) same.same_next
            (subst (All (Within start (spec_run (turns schedule m) (spec_init start todo)).next))
              same.same_sent inv.within),
      )
