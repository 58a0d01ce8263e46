-- ===== src/Network/Startup/Restart.antt =====
-- The sequence numbers of a coordinator that is started again.
use mathlib.Core.Path.{subst}
use semaforo.Prelude.{
  ℕ, ◌+◌, Bool, false, refl, ◌≤◌, ◌≡◌, String, Option, none, some, List, [], ◌∷◌, ◌++◌, arith,
  pos_part,
}
use semaforo.Float.{Float}
use semaforo.Network.Message.{Message, Payload, millis}
use semaforo.Network.DiGraph.{DiGraph}
use semaforo.Network.Coordinator.{Setup, Coordinator}
use semaforo.Network.MainLoop.{Event, run}
use semaforo.Network.MainLoop.Numbers.{
  needs_number, next_after, count_one, IsNext, Consecutive, numbered,
}
use semaforo.Network.MainLoop.Sequence.{IsSequenced, run-IsSequenced}
use semaforo.Network.Startup.{World, runs, start}
use semaforo.Network.Startup.Outcomes.{IsExplained, start-IsExplained}

next_after-le : (a b : ℕ) (n : Option ℕ) → a ≤ b → next_after a n ≤ next_after b n
next_after-le a b none h = h
next_after-le a b (some n) h = omega arith

module _ {W : Type 0} where
  -- No less than `lo`, or a message without a number that needs none.
  abbrev pub IsAbove : ℕ → Payload W → Option ℕ → Type 0
  IsAbove lo p none = needs_number p ≡ false
  IsAbove lo p (some k) = lo ≤ k

  -- Every message that needs a number has one, and the numbers increase strictly, from `lo` on and
  -- below `hi`.
  abbrev pub Increasing : ℕ → List (Message W) → ℕ → Type 0
  Increasing lo [] hi = lo ≤ hi
  Increasing lo (m ∷ ms) hi =
      IsAbove lo m.payload m.sequence_number × Increasing (next_after lo m.sequence_number) ms hi

  IsNext-IsAbove : (a b : ℕ) (p : Payload W) (n : Option ℕ) → a ≤ b → IsNext b p n → IsAbove a p n
  IsNext-IsAbove a b p none h k = k
  IsNext-IsAbove a b p (some n) h k = omega (arith, k)

  Consecutive-Increasing :
      (a b hi : ℕ) (ms : List (Message W)) → a ≤ b → Consecutive b ms hi → Increasing a ms hi
  Consecutive-Increasing a b hi [] h k = omega (arith, k)
  Consecutive-Increasing a b hi (m ∷ ms) h (k, ks) = (
    IsNext-IsAbove a b m.payload m.sequence_number h k,
    Consecutive-Increasing (next_after a m.sequence_number) (next_after b m.sequence_number) hi ms
        (next_after-le a b m.sequence_number h) ks,
  )

  next_after-count_one :
      (lo : ℕ) (p : Payload W) (n : Option ℕ) → IsNext lo p n → next_after lo n ≡ lo + count_one n
  next_after-count_one lo p none h = omega arith
  next_after-count_one lo p (some k) h = omega (arith, h)

  -- As many numbers are used as messages have one.
  Consecutive-numbered :
      (lo hi : ℕ) (ms : List (Message W)) → Consecutive lo ms hi → hi ≡ lo + numbered ms
  Consecutive-numbered lo hi [] h = omega (arith, h)
  Consecutive-numbered lo hi (m ∷ ms) (k, ks) =
      let first = next_after-count_one lo m.payload m.sequence_number k in
      let rest = Consecutive-numbered (next_after lo m.sequence_number) hi ms ks in
      omega (arith, first, rest)

  Consecutive-append-Increasing :
      (lo mid from hi : ℕ) (ms ns : List (Message W))
      → Consecutive lo ms mid
      → mid ≤ from
      → Consecutive from ns hi
      → Increasing lo (ms ++ ns) hi
  Consecutive-append-Increasing lo mid from hi [] ns h le k =
      Consecutive-Increasing lo from hi ns (omega (arith, h)) k
  Consecutive-append-Increasing lo mid from hi (m ∷ ms) ns (h, hs) le k = (
    IsNext-IsAbove lo lo m.payload m.sequence_number (omega arith) h,
    Consecutive-append-Increasing (next_after lo m.sequence_number) mid from hi ms ns hs le k,
  )

module _ {W G : Type 0} ⦃f : Float W⦄ ⦃g : DiGraph W G⦄ where
  start-IsSequenced :
      (fill : String → String → String) (w : World W) (env : Setup W) (c : Coordinator W G)
      (tls : Bool) (subscriptions : List (String × ℕ))
      → start fill w ≡ runs tls env c subscriptions
      → IsSequenced (pos_part (millis w.seed)) c
  start-IsSequenced fill w env c tls subscriptions h =
      let (_, _, (_, _, _, seeded, quiet), _, _) =
        subst (IsExplained w) h (start-IsExplained G fill w) in
      rw (quiet, seeded) refl

  -- If a coordinator is started twice, and the first has published no more numbered messages than
  -- milliseconds lie between the two seeds, then over the messages of both, whatever happens to either
  -- while each of their handlers ends before the next begins, every command for a phase and every
  -- timing plan has a number, and the numbers increase strictly: the second never reuses one of the
  -- first.
  pub restart-Increasing :
      (fill : String → String → String) (w1 w2 : World W) (env1 env2 : Setup W)
      (c1 c2 : Coordinator W G) (tls1 tls2 : Bool) (subs1 subs2 : List (String × ℕ))
      (es1 es2 : List (Event W))
      → start fill w1 ≡ runs tls1 env1 c1 subs1
      → start fill w2 ≡ runs tls2 env2 c2 subs2
      → pos_part (millis w1.seed) + numbered (run env1 es1 c1).published ≤ pos_part (millis w2.seed)
      → Increasing
          (pos_part (millis w1.seed))
          ((run env1 es1 c1).published ++ (run env2 es2 c2).published)
          (run env2 es2 c2).next_sequence
  restart-Increasing fill w1 w2 env1 env2 c1 c2 tls1 tls2 subs1 subs2 es1 es2 h1 h2 le =
      let lo = pos_part (millis w1.seed) in
      let from = pos_part (millis w2.seed) in
      let first =
        run-IsSequenced env1 lo es1 c1 (start-IsSequenced fill w1 env1 c1 tls1 subs1 h1) in
      let used = Consecutive-numbered lo (run env1 es1 c1).next_sequence _ first in
      Consecutive-append-Increasing lo (run env1 es1 c1).next_sequence from
        (run env2 es2 c2).next_sequence _ _ first (omega (arith, used, le))
        (run-IsSequenced env2 from es2 c2 (start-IsSequenced fill w2 env2 c2 tls2 subs2 h2))
