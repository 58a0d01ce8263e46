-- ===== src/Training/Benchmark.antt =====
-- brain/src/training/benchmark_green_wave.py: `run_simulation`, which keeps the account of a
-- simulated corridor, over the TraCI connection. The sums are integers, as every sample is.
pub mod Account
pub mod Runs
use semaforo.Prelude.{
  ℕ, zero, suc, ◌+◌, String, Bool, true, false, Option, none, some, List, [], ◌∷◌, ◌++◌, map, ◌||◌,
  str_eq, if◌then◌else◌,
}
use semaforo.Prelude.Dict.{Dict}
use semaforo.Agents.FixedTime.{sum}

-- A call of `traci`: it answers, it raises `FatalTraCIError`, or it raises another exception, such as
-- `TraCIException`.
pub data Call {ℓ} (A : Type ℓ) : Type ℓ where
  answered : A → Call A
  fatal failed : Call A

-- The calls that a run makes. `S` is the state of the simulation, which only `simulationStep` changes.
pub record Traci (S : Type 0) : Type 0 where
  pub min_expected_number : S → Call ℕ
  pub simulation_step : S → Call S
  pub arrived_number : S → Call ℕ
  pub controlled_lanes : S → String → Call (List String)
  pub halting_number : S → String → Call ℕ
  pub vehicle_number : S → String → Call ℕ

abbrev pub tl_ids : List String
tl_ids = "c0" ∷ "c1" ∷ "c2" ∷ []

pub record SimMetrics : Type 0 where
  pub name : String
  pub total_vehicles_arrived : ℕ
  pub total_waiting_time : ℕ
  pub total_queue_samples : ℕ
  pub total_queue_sum : ℕ
  pub simulation_steps : ℕ
  pub per_tl_waiting : Dict (List ℕ)
  pub per_tl_queue : Dict (List ℕ)

-- The local variables of `run_simulation` that the loop changes.
pub record Tally : Type 0 where
  pub metrics : SimMetrics
  pub step : ℕ
  pub arrived_total : ℕ

-- A piece of the `try` block goes on, is left by a `FatalTraCIError`, raises a `KeyError`, or another
-- exception of `traci`. Nothing catches the last two.
pub data Tried (M : Type 0) : Type 0 where
  going left : M → Tried M
  key_error traci_error : Tried M

-- How a run ends: with its metrics, or, after the `finally` block, with one of the two exceptions;
-- `out_of_fuel` is a loop that is still running.
pub data Outcome : Type 0 where
  returned : SimMetrics → Outcome
  raises_key_error raises_traci_error out_of_fuel : Outcome

abbrev pub has : List String → String → Bool
has [] s = false
has (t ∷ ts) s = str_eq t s || has ts s

-- list(set(lanes)), in one order: only a sum is taken over it.
unfoldable pub distinct : List String → List String
distinct [] = []
distinct (s ∷ ss) = let rest = distinct ss in if has ss s then rest else s ∷ rest

-- sum(f(lane) for lane in lanes)
unfoldable pub sum_lanes : (String → Call ℕ) → List String → Call ℕ
sum_lanes f [] = answered 0
sum_lanes f (l ∷ ls) = elim (f l) [
  | fatal ↦ fatal
  | failed ↦ failed
  | answered x ↦ elim (sum_lanes f ls) [
    | fatal ↦ fatal
    | failed ↦ failed
    | answered xs ↦ answered (x + xs)
  ]
]

-- d[k].append(x); `none` is the KeyError.
unfoldable pub append_at : Dict (List ℕ) → String → ℕ → Option (Dict (List ℕ))
append_at [] k x = none
append_at ((j, ys) ∷ d) k x =
    if str_eq j k
    then some ((j, ys ++ x ∷ []) ∷ d)
    else elim (append_at d k x) [ none ↦ none | some e ↦ some ((j, ys) ∷ e) ]

abbrev pub sum_values : Dict (List ℕ) → ℕ
sum_values [] = 0
sum_values ((j, ys) ∷ d) = sum ys + sum_values d

unfoldable pub count_queue : SimMetrics → String → Call ℕ → Tried SimMetrics
count_queue m tl fatal = left m
count_queue m tl failed = traci_error
count_queue m tl (answered queue) = elim (append_at m.per_tl_queue tl queue) [
  | none ↦ key_error
  | some d ↦ going (record m {
    per_tl_queue = d;
    total_queue_sum = m.total_queue_sum + queue;
    total_queue_samples = m.total_queue_samples + 1;
  })
]

-- The `finally` block.
unfoldable pub finish : Tally → SimMetrics
finish r = record r.metrics {
  total_vehicles_arrived = r.arrived_total;
  total_waiting_time = sum_values r.metrics.per_tl_waiting;
  simulation_steps = r.step;
}

module _ {S : Type 0} ⦃t : Traci S⦄ where
  unfoldable pub count_waiting : S → SimMetrics → String → List String → Call ℕ → Tried SimMetrics
  unfolding count_queue
  count_waiting s m tl lanes fatal = left m
  count_waiting s m tl lanes failed = traci_error
  count_waiting s m tl lanes (answered waiting) = elim (append_at m.per_tl_waiting tl waiting) [
    | none ↦ key_error
    | some d ↦
        count_queue (record m { per_tl_waiting = d }) tl (sum_lanes (t.vehicle_number s) lanes)
  ]

  -- One traffic light in one step.
  unfoldable pub sample : S → SimMetrics → String → Tried SimMetrics
  unfolding count_waiting
  sample s m tl = elim (t.controlled_lanes s tl) [
    | fatal ↦ left m
    | failed ↦ traci_error
    | answered lanes ↦
        count_waiting s m tl (distinct lanes) (sum_lanes (t.halting_number s) (distinct lanes))
  ]

  unfoldable pub sample_all : S → SimMetrics → List String → Tried SimMetrics
  sample_all s m [] = going m
  sample_all s m (tl ∷ tls) = elim (sample s m tl) [
    | going m' ↦ sample_all s m' tls
    | left m' ↦ left m'
    | key_error ↦ key_error
    | traci_error ↦ traci_error
  ]

  -- The body of the loop.
  unfoldable pub round : S → Tally → Tried (S × Tally)
  round s r = elim (t.simulation_step s) [
    | fatal ↦ left (s, r)
    | failed ↦ traci_error
    | answered s' ↦
        let r' = record r { step = r.step + 1 } in
        elim (t.arrived_number s') [
          | fatal ↦ left (s', r')
          | failed ↦ traci_error
          | answered n ↦
              let r'' = record r' { arrived_total = r'.arrived_total + n } in
              elim (sample_all s' r''.metrics tl_ids) [
                | going m ↦ going (s', record r'' { metrics = m })
                | left m ↦ left (s', record r'' { metrics = m })
                | key_error ↦ key_error
                | traci_error ↦ traci_error
              ]
        ]
  ]

  unfoldable pub loop : ℕ → S → Tally → Outcome
  unfolding finish
  loop zero s r = out_of_fuel
  loop (suc fuel) s r = elim (t.min_expected_number s) [
    | fatal ↦ returned (finish r)
    | failed ↦ raises_traci_error
    | answered zero ↦ returned (finish r)
    | answered (suc _) ↦ elim (round s r) [
      | going (s', r') ↦ loop fuel s' r'
      | left (_, r') ↦ returned (finish r')
      | key_error ↦ raises_key_error
      | traci_error ↦ raises_traci_error
    ]
  ]

-- The metrics when the simulation starts.
abbrev pub new_metrics : String → SimMetrics
new_metrics mode = record {
  name = mode;
  total_vehicles_arrived = 0;
  total_waiting_time = 0;
  total_queue_samples = 0;
  total_queue_sum = 0;
  simulation_steps = 0;
  per_tl_waiting = map (λ tl. (tl, [])) tl_ids;
  per_tl_queue = map (λ tl. (tl, [])) tl_ids;
}

module _ {S : Type 0} ⦃t : Traci S⦄ where
  -- From the state that the simulator starts in.
  unfoldable pub run_simulation : ℕ → String → S → Outcome
  run_simulation fuel mode s =
      loop fuel s (record { metrics = new_metrics mode; step = 0; arrived_total = 0 })
