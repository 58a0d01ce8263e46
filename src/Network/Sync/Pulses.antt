-- ===== src/Network/Sync/Pulses.antt =====
-- The pulses of a run of ticks: their numbers and their spacing.
use semaforo.Prelude.{
  ℕ, zero, suc, ◌+◌, ◌≡◌, List, [], ◌∷◌, ◌++◌, arith, if◌then◌else◌, length, Bool-cases, inl, inr,
}
use semaforo.Float.{Float}
use semaforo.Network.Message.{Message, command, plan, pulse}
use semaforo.Network.Sync.{SyncService, tick}

-- The clock readings of one call of `tick`.
pub record TickReadings (W : Type 0) : Type 0 where
  pub now : W
  pub stamp : W
  pub uptime : W

abbrev pub pulse_refs : {W : Type 0} → List (Message W) → List ℕ
pulse_refs [] = []
pulse_refs (m ∷ ms) = elim m.payload [
  | pulse p ↦ p.cycle_ref ∷ pulse_refs ms
  | command _ ↦ pulse_refs ms
  | plan _ ↦ pulse_refs ms
]

-- n, n + 1, …, `k` numbers in all
abbrev pub count_from : ℕ → ℕ → List ℕ
count_from n zero = []
count_from n (suc k) = n ∷ count_from (n + 1) k

module _ {W : Type 0} ⦃f : Float W⦄ where
  unfoldable pub ticks : List (TickReadings W) → SyncService W → SyncService W × List (Message W)
  ticks [] s = (s, [])
  ticks (r ∷ rs) s =
      let (s', sent) = tick r.now r.stamp r.uptime s in
      let (s'', more) = ticks rs s' in (s'', sent ++ more)

  -- The times at which a pulse is due, from the time of the pulse before.
  unfoldable pub due_times : W → W → List (TickReadings W) → List W
  due_times interval last [] = []
  due_times interval last (r ∷ rs) =
      let rest = due_times interval r.now rs in
      let skip = due_times interval last rs in
      if f.le interval (f.sub r.now last) then r.now ∷ rest else skip

  -- A run of ticks publishes one pulse for each time that is due, numbered on from the counter
  -- without a gap, and leaves the counter at the last number.
  pub ticks-numbered :
      (rs : List (TickReadings W)) (s : SyncService W)
      → let due = due_times s.interval_s s.last_pulse_time rs in
        let (s', sent) = ticks rs s in
        (pulse_refs sent ≡ count_from (s.cycle_counter + 1) (length due))
        × (length sent ≡ length due)
        × (s'.cycle_counter ≡ s.cycle_counter + length due)
  unfolding ticks due_times tick
  ticks-numbered [] s = ground arith
  ticks-numbered (r ∷ rs) s =
      elim (Bool-cases (f.le s.interval_s (f.sub r.now s.last_pulse_time))) [
        | inl due ↦ rw due (
            ground (
              arith,
              ticks-numbered rs
                  (record s { last_pulse_time = r.now; cycle_counter = s.cycle_counter + 1 }),
            ))
        | inr early ↦ rw early (ticks-numbered rs s)
      ]
