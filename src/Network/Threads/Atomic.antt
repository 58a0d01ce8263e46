-- ===== src/Network/Threads/Atomic.antt =====
-- The specification of the counter: drawing a number is one step, and publishing is another.
use semaforo.Prelude.{ℕ, ◌+◌, Option, none, some, List, [], ◌∷◌}
use semaforo.Network.Threads.{put_at}

-- `held` is the number that a thread has drawn and not yet published.
pub record Spec {ℓ} (P : Type ℓ) : Type ℓ where
  pub next : ℕ
  pub held : ℕ → Option ℕ
  pub todo : ℕ → List P
  pub sent : List (ℕ × ℕ × P)

module _ {ℓ} {P : Type ℓ} where
  unfoldable pub spec_turn : ℕ → Option ℕ → List P → Spec P → Spec P
  spec_turn i held [] s = s
  spec_turn i none (p ∷ ps) s = record s { next = s.next + 1; held = put_at s.held i (some s.next) }
  spec_turn i (some value) (p ∷ ps) s = record s {
    held = put_at s.held i none;
    todo = put_at s.todo i ps;
    sent = (i, value, p) ∷ s.sent;
  }

  unfoldable pub spec_step : ℕ → Spec P → Spec P
  unfolding spec_turn
  spec_step i s = spec_turn i (s.held i) (s.todo i) s

  unfoldable pub spec_run : List ℕ → Spec P → Spec P
  unfolding spec_step
  spec_run [] s = s
  spec_run (i ∷ turns) s = spec_run turns (spec_step i s)

  unfoldable pub spec_init : ℕ → (ℕ → List P) → Spec P
  spec_init start todo = record { next = start; held = λ _. none; todo = todo; sent = [] }
