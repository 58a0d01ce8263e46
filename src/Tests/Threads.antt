-- ===== src/Tests/Threads.antt =====
-- Examples of the counter in two threads: thread 0 publishes timing plans, thread 1 replies.
use semaforo.Prelude.{ℕ, ◌≡◌, refl, String, List, [], ◌∷◌, zero, suc, All}
use semaforo.Network.Threads.{interleave, init}
use semaforo.Network.Threads.Atomic.{spec_run, spec_init}
use semaforo.Network.Threads.Refinement.{Refines, interleave-Refines, turns}
use semaforo.Network.Threads.Order.{Ordered, Within, interleave-Ordered}

abbrev to_publish : ℕ → List String
to_publish zero = "plan" ∷ []
to_publish (suc zero) = "reply" ∷ "reply again" ∷ []
to_publish _ = []

-- Thread 1 asks for the lock while thread 0 holds it, draws the next number and publishes first.
abbrev overtaking : List ℕ
overtaking = 0 ∷ 1 ∷ 0 ∷ 1 ∷ 0 ∷ 0 ∷ 0 ∷ 1 ∷ 1 ∷ 1 ∷ 1 ∷ 1 ∷ 1 ∷ 0 ∷ 1 ∷ 1 ∷ 1 ∷ 1 ∷ 1 ∷ 1 ∷ []

-- A number that was drawn first may be published later: the lock does not cover the publication.
overtaking_sent :
    (interleave overtaking (init 100 to_publish)).sent
    ≡ (1, 102, "reply again") ∷ (0, 100, "plan") ∷ (1, 101, "reply") ∷ []
unfolding interleave init
overtaking_sent = refl

interleave-Refines_example :
    Refines
      (interleave overtaking (init 100 to_publish))
      (spec_run (turns overtaking (init 100 to_publish)) (spec_init 100 to_publish))
interleave-Refines_example = interleave-Refines 100 to_publish overtaking

interleave-Ordered_example :
    let m = interleave overtaking (init 100 to_publish) in
    Ordered m.sent × All (Within 100 m.next) m.sent
interleave-Ordered_example = interleave-Ordered 100 to_publish overtaking
