-- ===== src/Network/Threads.antt =====
-- network/coordinator/src/coordinator.py: `SequenceCounter.next` and `_publish_json` as they run in
-- several threads, the main loop and the callbacks of the MQTT client. A step is one access of the
-- counter or its lock, or one publication; a schedule is the threads in the order of their steps.
pub mod Atomic
pub mod Exclusion
pub mod Refinement
pub mod Order
use semaforo.Prelude.{
  ℕ, ◌+◌, Bool, true, false, Option, none, some, List, [], ◌∷◌, if◌then◌else◌, ◌==◌,
}

-- How far a thread is in its call of `_publish_json`: before the lock, with the lock, with the
-- `value` read, with `_next` loaded for its increment, with the increment stored, and with the lock
-- released and the number drawn.
pub data Pc : Type 0 where
  idle entered : Pc
  got : ℕ → Pc
  loaded : ℕ → ℕ → Pc
  stored drawn : ℕ → Pc

-- `next` and `lock` are the counter's, the lock with the thread that holds it. `todo` is what each
-- thread has to publish, `sent` what was published: thread, number and payload, newest first.
pub record Machine {ℓ} (P : Type ℓ) : Type ℓ where
  pub next : ℕ
  pub lock : Option ℕ
  pub pc : ℕ → Pc
  pub todo : ℕ → List P
  pub sent : List (ℕ × ℕ × P)

abbrev pub put_at {ℓ} : {A : Type ℓ} → (ℕ → A) → ℕ → A → ℕ → A
put_at f i a j = if j == i then a else f j

module _ {ℓ} {P : Type ℓ} where
  -- `with self._lock`: a thread waits while another holds the lock.
  unfoldable pub acquire : ℕ → Machine P → Machine P
  acquire i m = elim m.lock [
    | none ↦ record m { lock = some i; pc = put_at m.pc i entered }
    | some _ ↦ m
  ]

  unfoldable pub call : ℕ → List P → Machine P → Machine P
  unfolding acquire
  call i [] m = m
  call i (p ∷ ps) m = acquire i m

  unfoldable pub publish : ℕ → ℕ → List P → Machine P → Machine P
  publish i value [] m = m
  publish i value (p ∷ ps) m = record m {
    pc = put_at m.pc i idle;
    todo = put_at m.todo i ps;
    sent = (i, value, p) ∷ m.sent;
  }

  unfoldable pub move : ℕ → Pc → Machine P → Machine P
  unfolding call publish
  move i idle m = call i (m.todo i) m
  move i entered m = record m { pc = put_at m.pc i (got m.next) }
  move i (got value) m = record m { pc = put_at m.pc i (loaded value m.next) }
  move i (loaded value n) m = record m { next = n + 1; pc = put_at m.pc i (stored value) }
  move i (stored value) m = record m { lock = none; pc = put_at m.pc i (drawn value) }
  move i (drawn value) m = publish i value (m.todo i) m

  unfoldable pub thread_step : ℕ → Machine P → Machine P
  unfolding move
  thread_step i m = move i (m.pc i) m

  unfoldable pub interleave : List ℕ → Machine P → Machine P
  unfolding thread_step
  interleave [] m = m
  interleave (i ∷ schedule) m = interleave schedule (thread_step i m)

  unfoldable pub init : ℕ → (ℕ → List P) → Machine P
  init start todo = record { next = start; lock = none; pc = λ _. idle; todo = todo; sent = [] }
