-- ===== src/Network/Threads/Refinement.antt =====
-- Every schedule of the threads does what the atomic counter does: a number is drawn where the
-- increment is stored.
use mathlib.Core.Path.{subst}
use semaforo.Prelude.{
  ℕ, ◌+◌, ◌≡◌, refl, ap, Option, none, some, List, [], ◌∷◌, arith, ◌==◌, Bool-cases, Option-cases,
  inl, inr, ◌++◌, sym, ◌∙◌,
}
use semaforo.Network.Threads.{
  Pc, idle, entered, got, loaded, stored, drawn, Machine, put_at, move, thread_step, call, acquire,
  publish, interleave, init,
}
use semaforo.Network.Threads.Atomic.{Spec, spec_turn, spec_step, spec_run, spec_init}
use semaforo.Network.Threads.Exclusion.{
  IsExclusive, IsFresh, IsBusy, thread_step-IsExclusive, init-IsExclusive,
}

abbrev pub drawn_number : Pc → Option ℕ
drawn_number (stored v) = some v
drawn_number (drawn v) = some v
drawn_number _ = none

-- A state of the threads and one of the specification that look the same from outside.
pub record Refines {ℓ} {P : Type ℓ} (m : Machine P) (s : Spec P) : Type ℓ where
  pub same_next : s.next ≡ m.next
  pub same_held : (j : ℕ) → s.held j ≡ drawn_number (m.pc j)
  pub same_todo : (j : ℕ) → s.todo j ≡ m.todo j
  pub same_sent : s.sent ≡ m.sent

-- The steps that the specification takes too.
abbrev turn_of : ℕ → Pc → List ℕ
turn_of i (loaded v n) = i ∷ []
turn_of i (drawn v) = i ∷ []
turn_of i _ = []

unfoldable pub turns {ℓ} : {P : Type ℓ} → List ℕ → Machine P → List ℕ
turns [] m = []
turns (i ∷ schedule) m = turn_of i (m.pc i) ++ turns schedule (thread_step i m)

spec_run-append {ℓ} :
    {P : Type ℓ} (xs ys : List ℕ) (s : Spec P) → spec_run (xs ++ ys) s ≡ spec_run ys (spec_run xs s)
unfolding spec_run
spec_run-append [] ys s = refl
spec_run-append (x ∷ xs) ys s = spec_run-append xs ys (spec_step x s)

module _ {ℓ} {P : Type ℓ} (i : ℕ) (m : Machine P) (s : Spec P) (inv : IsExclusive m)
    (same : Refines m s) where
  open same use {same_next, same_held, same_todo, same_sent}

  -- A step that draws and publishes nothing.
  keeps_held :
      (p q : Pc)
      → m.pc i ≡ p
      → drawn_number q ≡ drawn_number p
      → (j : ℕ) → s.held j ≡ drawn_number (put_at m.pc i q j)
  keeps_held p q e d j = elim (Bool-cases (j == i)) [
    | inl h ↦
        let here : j ≡ i = ground arith in
        rw h (same_held j ∙ ap (λ k. drawn_number (m.pc k)) here ∙ ap drawn_number e ∙ sym d)
    | inr h ↦ rw h (same_held j)
  ]

  quiet :
      (p q : Pc) (lock : Option ℕ)
      → m.pc i ≡ p
      → drawn_number q ≡ drawn_number p
      → Refines (record m { lock = lock; pc = put_at m.pc i q }) s
  quiet p q lock e d = record {
    same_next = same_next;
    same_held = keeps_held p q e d;
    same_todo = same_todo;
    same_sent = same_sent;
  }

  call-Refines : m.pc i ≡ idle → (ps : List P) → Refines (call i ps m) s
  unfolding call acquire
  call-Refines e [] = same
  call-Refines e (p ∷ ps) = elim (Option-cases m.lock) [
    | inl k ↦ rw (k, acquire) (quiet idle entered (some i) e refl)
    | inr (k, f) ↦ rw (f, acquire) same
  ]

  -- Where the increment is stored the specification draws.
  draw-Refines :
      (v : ℕ) (ps : List P)
      → m.todo i ≡ ps
      → IsBusy (loaded v m.next) ps
      → v ≡ m.next
      → m.pc i ≡ loaded v m.next
      → Refines
          (record m { next = m.next + 1; pc = put_at m.pc i (stored v) })
          (spec_turn i none ps s)
  unfolding spec_turn
  draw-Refines v [] t b seen e = elim b [ ]
  draw-Refines v (p ∷ ps) t b seen e = record {
    same_next = ap (λ n. n + 1) same_next;
    same_held = λ j. ground (arith, same_held j, same_next);
    same_todo = same_todo;
    same_sent = same_sent;
  }

  publish-Refines :
      (v : ℕ) (ps : List P)
      → m.pc i ≡ drawn v
      → Refines (publish i v ps m) (spec_turn i (some v) ps s)
  unfolding spec_turn publish
  publish-Refines v [] e = same
  publish-Refines v (p ∷ ps) e = record {
    same_next = same_next;
    same_held = λ j. ground (arith, same_held j);
    same_todo = λ j. ground (arith, same_todo j);
    same_sent = ap (λ l. (i, v, p) ∷ l) same_sent;
  }

  move-Refines : (p : Pc) → m.pc i ≡ p → Refines (move i p m) (spec_run (turn_of i p) s)
  unfolding move spec_run spec_step
  move-Refines idle e = call-Refines e (m.todo i)
  move-Refines entered e = quiet entered (got m.next) m.lock e refl
  move-Refines (got v) e = quiet (got v) (loaded v m.next) m.lock e refl
  move-Refines (loaded v n) e =
      let (seen, now) = subst (IsFresh m.next) e (inv.fresh i) in
      let b : IsBusy (loaded v m.next) (m.todo i) =
        subst (λ k. IsBusy (loaded v k) (m.todo i)) now
          (subst (λ r. IsBusy r (m.todo i)) e (inv.busy i)) in
      rw (same_held i ∙ ap drawn_number e, same_todo i, now)
        (draw-Refines v (m.todo i) refl b seen (rw (← now) e))
  move-Refines (stored v) e = quiet (stored v) (drawn v) none e refl
  move-Refines (drawn v) e =
      rw (same_held i ∙ ap drawn_number e, same_todo i) (publish-Refines v (m.todo i) e)

interleave-Refines_from {ℓ} :
    {P : Type ℓ} (schedule : List ℕ) (m : Machine P) (s : Spec P)
    → IsExclusive m
    → Refines m s
    → Refines (interleave schedule m) (spec_run (turns schedule m) s)
unfolding interleave turns spec_run
interleave-Refines_from [] m s inv same = same
interleave-Refines_from (i ∷ schedule) m s inv same =
    rw (spec_run-append (turn_of i (m.pc i)) (turns schedule (thread_step i m)) s) (
      interleave-Refines_from schedule (thread_step i m) (spec_run (turn_of i (m.pc i)) s)
        (thread_step-IsExclusive i m inv)
        (unfold thread_step in move-Refines i m s inv same (m.pc i) refl))

-- However the threads are scheduled, the counter, the numbers drawn, the payloads left and what was
-- published are those of the specification, in which a thread draws its number in one step: where
-- the increment is stored.
pub interleave-Refines {ℓ} :
    {P : Type ℓ} (start : ℕ) (todo : ℕ → List P) (schedule : List ℕ)
    → Refines
        (interleave schedule (init start todo))
        (spec_run (turns schedule (init start todo)) (spec_init start todo))
unfolding init spec_init
interleave-Refines start todo schedule =
    interleave-Refines_from schedule (init start todo) (spec_init start todo)
      (init-IsExclusive start todo)
      (record { same_next = refl; same_held = λ j. refl; same_todo = λ j. refl; same_sent = refl })
