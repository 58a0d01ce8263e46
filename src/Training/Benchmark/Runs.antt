-- ===== src/Training/Benchmark/Runs.antt =====
-- How the runs of the benchmark end.
use mathlib.Core.Path.{subst}
use semaforo.Prelude.{
  ℕ, zero, suc, ◌+◌, ◌*◌, ◌≡◌, refl, String, Bool, true, false, ◌||◌, arith, ◌⊎◌, inl, inr,
}
use semaforo.Training.Benchmark.{
  Traci, tl_ids, SimMetrics, Tally, Tried, going, left, key_error, traci_error, Call, answered,
  fatal, failed, Outcome, returned, raises_key_error, raises_traci_error, out_of_fuel, sum_values,
  sample_all, finish, round, loop, new_metrics, run_simulation,
}
use semaforo.Training.Benchmark.Account.{
  IsEven, IsRagged, IsTried, IsEven-IsRagged, sample_all-IsTried, FailsAt,
}

-- What a run ends with: an account that adds up, or an exception that has the reason `E`.
abbrev pub IsAccounted : Type 0 → Outcome → Type 0
IsAccounted E (returned m) =
    IsRagged (3 * m.simulation_steps) m × (m.total_waiting_time ≡ sum_values m.per_tl_waiting)
IsAccounted E raises_key_error = ⊥
IsAccounted E raises_traci_error = E
IsAccounted E out_of_fuel = ⊥

abbrev pub is_over : Call ℕ → Bool
is_over fatal = true
is_over failed = true
is_over (answered zero) = true
is_over (answered (suc _)) = false

finish-IsAccounted :
    (E : Type 0) (r : Tally) → IsRagged (3 * r.step) r.metrics → IsAccounted E (returned (finish r))
unfolding finish
finish-IsAccounted E r ragged = (ragged, refl)

finish-IsAccounted_even :
    (E : Type 0) (r : Tally) → IsEven (3 * r.step) r.metrics → IsAccounted E (returned (finish r))
finish-IsAccounted_even E r even =
    finish-IsAccounted E r (IsEven-IsRagged (3 * r.step) (3 * r.step) r.metrics (omega arith) even)

-- A turn of the loop, which ends here or goes on with `q`.
turn-IsAccounted :
    (E : Type 0) (o : Call ℕ) (ended q : Outcome)
    → (o ≡ failed → E)
    → IsAccounted E ended
    → (is_over o ≡ true) ⊎ IsAccounted E q
    → IsAccounted E (elim o [
      | fatal ↦ ended
      | failed ↦ raises_traci_error
      | answered zero ↦ ended
      | answered (suc _) ↦ q
    ])
turn-IsAccounted E fatal ended q bad h k = h
turn-IsAccounted E failed ended q bad h k = bad refl
turn-IsAccounted E (answered zero) ended q bad h k = h
turn-IsAccounted E (answered (suc _)) ended q bad h (inl k) = cc
turn-IsAccounted E (answered (suc _)) ended q bad h (inr k) = k

or_cases : (a b : Bool) → (a || b) ≡ true → (a ≡ true) ⊎ (b ≡ true)
or_cases true b h = inl refl
or_cases false b h = inr h

module _ {S : Type 0} ⦃t : Traci S⦄ where
  -- In some state a call raises an exception that is not fatal.
  abbrev pub Fails : S → Type 0
  Fails s =
      (t.min_expected_number s ≡ failed)
      ⊎ ((t.simulation_step s ≡ failed)
          ⊎ ((t.arrived_number s ≡ failed) ⊎ ((x : String) × FailsAt s x)))

  -- A round takes three samples of each kind.
  abbrev IsRound : (S → Type 0) → Tried (S × Tally) → Type 0
  IsRound P (going (s, r)) = P s × IsEven (3 * r.step) r.metrics
  IsRound P (left (s, r)) = IsRagged (3 * r.step) r.metrics
  IsRound P key_error = ⊥
  IsRound P traci_error = (s : S) × Fails s

  abbrev Steps : (S → Type 0) → Call S → Type 0
  Steps P (answered s) = P s
  Steps P _ = Unit

  round-IsRound :
      (P : S → Type 0) (s : S) (r : Tally)
      → IsEven (3 * r.step) r.metrics
      → Steps P (t.simulation_step s)
      → IsRound P (round s r)
  unfolding round
  round-IsRound P s r even = stepped (t.simulation_step s) refl
    where
      tried :
          (s' : S) (n : ℕ) (o : Tried SimMetrics)
          → P s'
          → IsTried ((x : S) × Fails x) (3 * r.step + 3) (3 * r.step + 3) o
          → IsRound P (elim o [
            | going m ↦
                going (
                  s',
                  record { metrics = m; step = r.step + 1; arrived_total = r.arrived_total + n },
                )
            | left m ↦
                left (
                  s',
                  record { metrics = m; step = r.step + 1; arrived_total = r.arrived_total + n },
                )
            | key_error ↦ key_error
            | traci_error ↦ traci_error
          ])
      tried s' n (going m) p k = (p, subst (λ c. IsEven c m) (omega arith) k)
      tried s' n (left m) p k = subst (λ c. IsRagged c m) (omega arith) k
      tried s' n key_error p k = k
      tried s' n traci_error p k = k

      arrived :
          (s' : S) (o : Call ℕ)
          → t.arrived_number s' ≡ o
          → P s'
          → IsRound P (elim o [
            | fatal ↦ left (s', record r { step = r.step + 1 })
            | failed ↦ traci_error
            | answered n ↦ elim (sample_all s' r.metrics tl_ids) [
              | going m ↦ going (
                s',
                record { metrics = m; step = r.step + 1; arrived_total = r.arrived_total + n },
              )
              | left m ↦ left (
                s',
                record { metrics = m; step = r.step + 1; arrived_total = r.arrived_total + n },
              )
              | key_error ↦ key_error
              | traci_error ↦ traci_error
            ]
          ])
      arrived s' failed e p = (s', inr (inr (inl e)))
      arrived s' fatal e p =
          IsEven-IsRagged (3 * r.step) (3 * (r.step + 1)) r.metrics (omega arith) even
      arrived s' (answered n) e p = tried s' n (sample_all s' r.metrics tl_ids) p (
          sample_all-IsTried ((x : S) × Fails x) s' tl_ids r.metrics (3 * r.step)
            (refl, (refl, (refl, tt))) even (λ x k. (s', inr (inr (inr (x, k))))))

      stepped :
          (o : Call S)
          → t.simulation_step s ≡ o
          → Steps P o
          → IsRound P (elim o [
            | fatal ↦ left (s, r)
            | failed ↦ traci_error
            | answered s' ↦ elim (t.arrived_number s') [
              | fatal ↦ left (s', record r { step = r.step + 1 })
              | failed ↦ traci_error
              | answered n ↦ elim (sample_all s' r.metrics tl_ids) [
                | going m ↦ going (
                  s',
                  record { metrics = m; step = r.step + 1; arrived_total = r.arrived_total + n },
                )
                | left m ↦ left (
                  s',
                  record { metrics = m; step = r.step + 1; arrived_total = r.arrived_total + n },
                )
                | key_error ↦ key_error
                | traci_error ↦ traci_error
              ]
            ]
          ])
      stepped failed e p = (s, inr (inl e))
      stepped fatal e p = IsEven-IsRagged (3 * r.step) (3 * r.step) r.metrics (omega arith) even
      stepped (answered s') e p = arrived s' (t.arrived_number s') refl p

  -- The simulation has no vehicles left, or is gone, after `n` steps at most.
  unfoldable pub finishes : ℕ → S → Bool
  finishes zero s = is_over (t.min_expected_number s)
  finishes (suc n) s =
      is_over (t.min_expected_number s)
      || elim (t.simulation_step s) [ fatal ↦ true | failed ↦ true | answered s' ↦ finishes n s' ]

  finishes-Steps :
      (n : ℕ) (o : Call S)
      → (elim o [ fatal ↦ true | failed ↦ true | answered s' ↦ finishes n s' ]) ≡ true
      → Steps (λ s'. finishes n s' ≡ true) o
  finishes-Steps n fatal h = tt
  finishes-Steps n failed h = tt
  finishes-Steps n (answered s') h = h

  after_round-IsAccounted :
      (P : S → Type 0) (n : ℕ) (o : Tried (S × Tally))
      → ((s : S) (r : Tally)
          → P s
          → IsEven (3 * r.step) r.metrics
          → IsAccounted ((x : S) × Fails x) (loop n s r))
      → IsRound P o
      → IsAccounted ((x : S) × Fails x) (elim o [
        | going (s', r') ↦ loop n s' r'
        | left (_, r') ↦ returned (finish r')
        | key_error ↦ raises_key_error
        | traci_error ↦ raises_traci_error
      ])
  after_round-IsAccounted P n (going (s, r)) rest (p, even) = rest s r p even
  after_round-IsAccounted P n (left (s, r)) rest ragged =
      finish-IsAccounted ((x : S) × Fails x) r ragged
  after_round-IsAccounted P n key_error rest h = h
  after_round-IsAccounted P n traci_error rest h = h

  loop-IsAccounted :
      (n : ℕ) (s : S) (r : Tally)
      → finishes n s ≡ true
      → IsEven (3 * r.step) r.metrics
      → IsAccounted ((x : S) × Fails x) (loop (suc n) s r)
  unfolding loop finishes
  loop-IsAccounted zero s r h even =
      turn-IsAccounted ((x : S) × Fails x) (t.min_expected_number s) (returned (finish r)) _
        (λ e. (s, inl e)) (finish-IsAccounted_even ((x : S) × Fails x) r even) (inl h)
  loop-IsAccounted (suc n) s r h even =
      turn-IsAccounted ((x : S) × Fails x) (t.min_expected_number s) (returned (finish r)) _
        (λ e. (s, inl e)) (finish-IsAccounted_even ((x : S) × Fails x) r even)
        (elim (or_cases (is_over (t.min_expected_number s)) _ h) [
          | inl over ↦ inl over
          | inr on ↦ inr (
              after_round-IsAccounted (λ s'. finishes n s' ≡ true) (suc n) (round s r)
                (λ s' r' k e. loop-IsAccounted n s' r' k e)
                (round-IsRound (λ s'. finishes n s' ≡ true) s r even
                  (finishes-Steps n (t.simulation_step s) on)))
        ])

  -- If the simulation has no vehicles left or a call of its step or count of vehicles raises after
  -- `n` steps at most, then `n + 1` rounds of the loop are enough for a run to end. It ends with an
  -- exception only if some call of `traci` raises another one than a `FatalTraCIError`. Otherwise it
  -- returns metrics, also where a `FatalTraCIError` cuts it short: each dictionary has one list for
  -- each of the three traffic lights, the sum and the number of the queue samples are those of the
  -- lists, there are at most three samples of a kind for each step, at most one sample of waiting
  -- vehicles has no queue beside it, and the waiting time is the sum of all samples of waiting
  -- vehicles.
  pub run_simulation-IsAccounted :
      (n : ℕ) (mode : String) (s : S)
      → finishes n s ≡ true
      → IsAccounted ((x : S) × Fails x) (run_simulation (suc n) mode s)
  unfolding run_simulation
  run_simulation-IsAccounted n mode s h =
      loop-IsAccounted n s (record { metrics = new_metrics mode; step = 0; arrived_total = 0 }) h
        ((refl, refl, refl, refl), refl, refl)
