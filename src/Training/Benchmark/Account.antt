-- ===== src/Training/Benchmark/Account.antt =====
-- What the metrics of a run add up to.
use mathlib.Core.Path.{subst}
use semaforo.Prelude.{
  ℕ, suc, ◌+◌, ◌≤◌, ◌≡◌, refl, ◌⊎◌, inl, inr, ap, ◌∙◌, String, true, Option, none, some, List, [],
  ◌∷◌, ◌++◌, map, str_eq, arith, length, Bool-cases, All,
}
use semaforo.Prelude.Dict.{Dict}
use semaforo.Agents.FixedTime.{sum}
use semaforo.Training.Benchmark.{
  Traci, tl_ids, SimMetrics, Tried, going, left, key_error, traci_error, Call, answered, fatal,
  failed, sum_lanes, distinct, has, append_at, sum_values, count_queue, count_waiting, sample,
  sample_all,
}

-- The number of samples that are kept.
abbrev pub count_values : Dict (List ℕ) → ℕ
count_values [] = 0
count_values ((j, ys) ∷ d) = length ys + count_values d

sum-append_one : (xs : List ℕ) (x : ℕ) → sum (xs ++ x ∷ []) ≡ sum xs + x
sum-append_one [] x = ground arith
sum-append_one (y ∷ ys) x = let e = sum-append_one ys x in ground arith

length-append_one : (xs : List ℕ) (x : ℕ) → length (xs ++ x ∷ []) ≡ length xs + 1
length-append_one [] x = refl
length-append_one (y ∷ ys) x = let e = length-append_one ys x in ground arith

-- A new sample under a key of the dictionary.
abbrev IsAppended : Dict (List ℕ) → ℕ → Option (Dict (List ℕ)) → Type 0
IsAppended d x none = ⊥
IsAppended d x (some e) =
    (map (λ p. p.0) e ≡ map (λ p. p.0) d)
    × (sum_values e ≡ sum_values d + x)
    × (count_values e ≡ count_values d + 1)

append_at-IsAppended :
    (d : Dict (List ℕ)) (k : String) (x : ℕ)
    → has (map (λ p. p.0) d) k ≡ true
    → IsAppended d x (append_at d k x)
unfolding append_at
append_at-IsAppended [] k x h = cc
append_at-IsAppended ((j, ys) ∷ d) k x h = elim (Bool-cases (str_eq j k)) [
  | inl e ↦ rw e (
    refl,
    let a = sum-append_one ys x in ground arith,
    let a = length-append_one ys x in ground arith,
  )
  | inr e ↦
      let there : has (map (λ p. p.0) d) k ≡ true = rw e at h in
      rw e (put_back (append_at d k x) (append_at-IsAppended d k x there))
]
  where
    put_back :
        (o : Option (Dict (List ℕ)))
        → IsAppended d x o
        → IsAppended ((j, ys) ∷ d) x (elim o [ none ↦ none | some e ↦ some ((j, ys) ∷ e) ])
    put_back none h = h
    put_back (some e) (same, total, one) =
        (ap (λ ks. j ∷ ks) same, ground (arith, total), ground (arith, one))

-- The dictionaries have the traffic lights as keys, and the running totals are those of the queues.
abbrev pub IsTotalled : SimMetrics → Type 0
IsTotalled m =
    (map (λ p. p.0) m.per_tl_waiting ≡ tl_ids)
    × (map (λ p. p.0) m.per_tl_queue ≡ tl_ids)
    × (m.total_queue_sum ≡ sum_values m.per_tl_queue)
    × (m.total_queue_samples ≡ count_values m.per_tl_queue)

-- Between two traffic lights: as many samples of both kinds.
abbrev pub IsEven : ℕ → SimMetrics → Type 0
IsEven n m = IsTotalled m × (count_values m.per_tl_queue ≡ n) × (count_values m.per_tl_waiting ≡ n)

-- After an error: a sample of the waiting vehicles may have no sample of the queue beside it.
abbrev pub IsRagged : ℕ → SimMetrics → Type 0
IsRagged n m =
    IsTotalled m
    × (count_values m.per_tl_queue ≤ count_values m.per_tl_waiting)
    × (count_values m.per_tl_waiting ≤ count_values m.per_tl_queue + 1)
    × (count_values m.per_tl_waiting ≤ n)

pub IsEven-IsRagged : (k n : ℕ) (m : SimMetrics) → k ≤ n → IsEven k m → IsRagged n m
IsEven-IsRagged k n m h (total, a, b) = (total, omega arith, omega arith, omega arith)

-- What one piece of the `try` block makes of even metrics with `k` samples, if it may take `n`; an
-- exception that is not caught has the reason `E`.
abbrev pub IsTried : Type 0 → ℕ → ℕ → Tried SimMetrics → Type 0
IsTried E k n (going m) = IsEven k m
IsTried E k n (left m) = IsRagged n m
IsTried E k n key_error = ⊥
IsTried E k n traci_error = E

count_queue-IsTried :
    (E : Type 0) (m : SimMetrics) (tl : String) (n : ℕ) (queue : Call ℕ)
    → (queue ≡ failed → E)
    → has tl_ids tl ≡ true
    → IsTotalled m
    → count_values m.per_tl_queue ≡ n
    → count_values m.per_tl_waiting ≡ n + 1
    → IsTried E (n + 1) (n + 1) (count_queue m tl queue)
unfolding count_queue
count_queue-IsTried E m tl n failed bad h total a b = bad refl
count_queue-IsTried E m tl n fatal bad h total a b = (total, omega arith, omega arith, omega arith)
count_queue-IsTried E m tl n (answered queue) bad h (w, q, sums, samples) a b =
    appended (append_at m.per_tl_queue tl queue)
      (append_at-IsAppended m.per_tl_queue tl queue (rw q h))
  where
    appended :
        (o : Option (Dict (List ℕ)))
        → IsAppended m.per_tl_queue queue o
        → IsTried E (n + 1) (n + 1) (elim o [
          | none ↦ key_error
          | some d ↦ going (record m {
            per_tl_queue = d;
            total_queue_sum = m.total_queue_sum + queue;
            total_queue_samples = m.total_queue_samples + 1;
          })
        ])
    appended none k = k
    appended (some d) (same, sum, one) = ((w, same ∙ q, omega arith, omega arith), omega arith, b)

sum_lanes-failed :
    (f : String → Call ℕ) (lanes : List String)
    → sum_lanes f lanes ≡ failed
    → (lane : String) × (f lane ≡ failed)
unfolding sum_lanes
sum_lanes-failed f [] h = cc
sum_lanes-failed f (l ∷ ls) h = first (f l) refl (λ k. sum_lanes-failed f ls k) h
  where
    rest :
        (x : ℕ) (o : Call ℕ)
        → (elim o [ fatal ↦ fatal | failed ↦ failed | answered y ↦ answered (x + y) ]) ≡ failed
        → o ≡ failed
    rest x fatal k = cc
    rest x failed k = refl
    rest x (answered y) k = cc

    first :
        (o : Call ℕ)
        → f l ≡ o
        → (sum_lanes f ls ≡ failed → (lane : String) × (f lane ≡ failed))
        → (elim o [
          | fatal ↦ fatal
          | failed ↦ failed
          | answered x ↦ elim (sum_lanes f ls) [
            | fatal ↦ fatal
            | failed ↦ failed
            | answered xs ↦ answered (x + xs)
          ]
        ])
          ≡ failed
        → (lane : String) × (f lane ≡ failed)
    first fatal e later k = cc
    first failed e later k = (l, e)
    first (answered x) e later k = later (rest x (sum_lanes f ls) k)

module _ {S : Type 0} ⦃t : Traci S⦄ where
  -- A call for a traffic light or a lane raises an exception that is not fatal.
  abbrev pub FailsAt : S → String → Type 0
  FailsAt s x =
      (t.controlled_lanes s x ≡ failed)
      ⊎ ((t.halting_number s x ≡ failed) ⊎ (t.vehicle_number s x ≡ failed))

  count_waiting-IsTried :
      (E : Type 0) (s : S) (m : SimMetrics) (tl : String) (lanes : List String) (n : ℕ)
      (waiting : Call ℕ)
      → (waiting ≡ failed → E)
      → ((lane : String) → t.vehicle_number s lane ≡ failed → E)
      → has tl_ids tl ≡ true
      → IsEven n m
      → IsTried E (n + 1) (n + 1) (count_waiting s m tl lanes waiting)
  unfolding count_waiting
  count_waiting-IsTried E s m tl lanes n failed bad worse h even = bad refl
  count_waiting-IsTried E s m tl lanes n fatal bad worse h even =
      IsEven-IsRagged n (n + 1) m (omega arith) even
  count_waiting-IsTried E s m tl lanes n (answered waiting) bad worse h
        ((w, q, sums, samples), a, b) =
      appended (append_at m.per_tl_waiting tl waiting)
        (append_at-IsAppended m.per_tl_waiting tl waiting (rw w h))
    where
      appended :
          (o : Option (Dict (List ℕ)))
          → IsAppended m.per_tl_waiting waiting o
          → IsTried E (n + 1) (n + 1) (elim o [
            | none ↦ key_error
            | some d ↦
                count_queue
                  (record m { per_tl_waiting = d })
                  tl
                  (sum_lanes (t.vehicle_number s) lanes)
          ])
      appended none k = k
      appended (some d) (same, _, one) =
          count_queue-IsTried E (record m { per_tl_waiting = d }) tl n
            (sum_lanes (t.vehicle_number s) lanes)
            (λ e. let (lane, e') = sum_lanes-failed (t.vehicle_number s) lanes e in worse lane e') h
            (same ∙ w, q, sums, samples) a (one ∙ ap (λ c. c + 1) b)

  sample-IsTried :
      (E : Type 0) (s : S) (m : SimMetrics) (tl : String) (n : ℕ)
      → has tl_ids tl ≡ true
      → IsEven n m
      → ((tl : String) → FailsAt s tl → E)
      → IsTried E (n + 1) (n + 1) (sample s m tl)
  unfolding sample
  sample-IsTried E s m tl n h even bad = looked (t.controlled_lanes s tl) (λ e. bad tl (inl e))
    where
      looked :
          (o : Call (List String))
          → (o ≡ failed → E)
          → IsTried E (n + 1) (n + 1) (elim o [
            | fatal ↦ left m
            | failed ↦ traci_error
            | answered lanes ↦
                count_waiting s m tl
                  (distinct lanes)
                  (sum_lanes (t.halting_number s) (distinct lanes))
          ])
      looked fatal e = IsEven-IsRagged n (n + 1) m (omega arith) even
      looked failed e = e refl
      looked (answered lanes) e =
          count_waiting-IsTried E s m tl (distinct lanes) n
            (sum_lanes (t.halting_number s) (distinct lanes))
            (λ k.
              let (lane, k') = sum_lanes-failed (t.halting_number s) (distinct lanes) k in
              bad lane (inr (inl k')))
            (λ lane k. bad lane (inr (inr k))) h even

  pub sample_all-IsTried :
      (E : Type 0) (s : S) (tls : List String) (m : SimMetrics) (n : ℕ)
      → All (λ tl. has tl_ids tl ≡ true) tls
      → IsEven n m
      → ((tl : String) → FailsAt s tl → E)
      → IsTried E (n + length tls) (n + length tls) (sample_all s m tls)
  unfolding sample_all
  sample_all-IsTried E s [] m n h even bad = subst (λ k. IsEven k m) (omega arith) even
  sample_all-IsTried E s (tl ∷ tls) m n (here, there) even bad =
      go_on (sample s m tl) (λ m' k. sample_all-IsTried E s tls m' (n + 1) there k bad)
        (sample-IsTried E s m tl n here even bad)
    where
      go_on :
          (o : Tried SimMetrics)
          → ((m' : SimMetrics)
              → IsEven (n + 1) m'
              → IsTried E (n + 1 + length tls) (n + 1 + length tls) (sample_all s m' tls))
          → IsTried E (n + 1) (n + 1) o
          → IsTried E (n + suc (length tls)) (n + suc (length tls)) (elim o [
            | going m' ↦ sample_all s m' tls
            | left m' ↦ left m'
            | key_error ↦ key_error
            | traci_error ↦ traci_error
          ])
      go_on (going m') rest k =
          subst (λ c. IsTried E c c (sample_all s m' tls)) (omega arith) (rest m' k)
      go_on (left m') rest (total, a, b, c) = (total, a, b, omega arith)
      go_on key_error rest k = k
      go_on traci_error rest k = k
