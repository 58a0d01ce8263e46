-- ===== src/Traffic/Seasons/Injected.antt =====
-- How long a simulated day is, and the names of its vehicles.
use semaforo.Prelude.{
  ℕ, zero, suc, ◌+◌, ◌≤◌, ◌≡◌, refl, String, Bool, true, false, Option, none, some, List, [], ◌∷◌,
  ◌++◌, leb, if◌then◌else◌, pos, arith, if_ind, Bool-cases, inl, inr, ap,
}
use semaforo.Prelude.Text.{◌+++◌, show_int}
use semaforo.Float.{Float, lt}
use semaforo.Traffic.Seasons.{
  Stream, Draw, Traffic, Answer, add_vehicle, inject, generate_traffic, Run, finished, crashed,
  out_of_fuel, loop, run_simulation,
}

-- prefix0, prefix1, … up to `n`
abbrev pub names_below : String → ℕ → List String
names_below prefix zero = []
names_below prefix (suc n) = names_below prefix n ++ (prefix +++ show_int (pos n)) ∷ []

abbrev pub IsNumbered : String → Stream → Type 0
IsNumbered prefix s = s.added ≡ names_below prefix s.veh_counter

abbrev pub AreNumbered : Traffic → Type 0
AreNumbered v =
    IsNumbered "veh_beach_" v.beach
    × IsNumbered "veh_down_" v.down
    × IsNumbered "veh_cross_" v.cross

add_vehicle-IsNumbered :
    (prefix : String) (accepted : Bool) (s : Stream)
    → IsNumbered prefix s
    → IsNumbered prefix (add_vehicle prefix accepted s)
unfolding add_vehicle
add_vehicle-IsNumbered prefix true s h =
    rw (arith_suc s.veh_counter) (ap (λ xs. xs ++ (prefix +++ show_int (pos s.veh_counter)) ∷ []) h)
  where
    arith_suc : (n : ℕ) → n + 1 ≡ suc n
    arith_suc n = omega arith
add_vehicle-IsNumbered prefix false s h = h

leb-zero : (n : ℕ) → leb 0 n ≡ true
leb-zero n = ground arith

-- A day that ends has all its steps, and its vehicles are numbered without a gap. It crashes only
-- where an answer is missing.
module _ {W : Type 0} ⦃f : Float W⦄ where
  abbrev pub IsDay : (ℕ → Option (Answer W)) → Run → Type 0
  IsDay answers (finished steps v) = (steps ≡ 86_401) × AreNumbered v
  IsDay answers crashed = (k : ℕ) × (k ≤ 86_400) × (answers k ≡ none)
  IsDay answers out_of_fuel = ⊥

  inject-IsNumbered :
      (prefix : String) (probability : W) (draw : Draw W) (s : Stream)
      → IsNumbered prefix s
      → IsNumbered prefix (inject prefix probability draw s)
  unfolding inject
  inject-IsNumbered prefix p draw s h =
      if_ind (IsNumbered prefix) (lt draw.value p) (add_vehicle-IsNumbered prefix draw.accepted s h)
        h

  generate_traffic-AreNumbered :
      (season : String) (t : W) (answer : Answer W) (v : Traffic)
      → AreNumbered v
      → AreNumbered (generate_traffic season t answer v)
  unfolding generate_traffic
  generate_traffic-AreNumbered season t answer v (a, b, c) = (
    inject-IsNumbered _ _ answer.for_beach v.beach a,
    inject-IsNumbered _ _ answer.for_down v.down b,
    inject-IsNumbered _ _ answer.for_cross v.cross c,
  )

  loop-IsDay :
      (wrap : W → W) (season : String) (offset : W) (answers : ℕ → Option (Answer W))
      (fuel step : ℕ) (v : Traffic)
      → step ≤ 86_400
      → 86_401 ≤ step + fuel
      → AreNumbered v
      → IsDay answers (loop wrap season offset answers fuel step v)
  unfolding loop
  loop-IsDay wrap season offset answers zero step v h k n = absurd (omega arith)
  loop-IsDay wrap season offset answers (suc fuel) step v h k n =
      answered (answers step) refl
        λ v' le n'. loop-IsDay wrap season offset answers fuel (step + 1) v' le (omega arith) n'
    where
      next : Answer W → Traffic
      next answer = generate_traffic season (wrap (f.add answer.time offset)) answer v

      answered :
          (o : Option (Answer W))
          → answers step ≡ o
          → ((v' : Traffic)
              → step + 1 ≤ 86_400
              → AreNumbered v'
              → IsDay answers (loop wrap season offset answers fuel (step + 1) v'))
          → IsDay answers (elim o [
            | none ↦ crashed
            | some answer ↦
                if leb 0 answer.min_expected_number
                then if leb 86_401 (step + 1)
                  then finished (step + 1) (next answer)
                  else loop wrap season offset answers fuel (step + 1) (next answer)
                else finished step v
          ])
      answered none e rest = (step, h, e)
      answered (some answer) e rest =
          let numbered : AreNumbered (next answer) =
            generate_traffic-AreNumbered season _ answer v n in
          rw (leb-zero answer.min_expected_number) (elim (Bool-cases (leb 86_401 (step + 1))) [
            | inl last ↦ rw last (ground arith, numbered)
            | inr more ↦ rw more (rest (next answer) (ground arith) numbered)
          ])

  -- With fuel for 86401 steps a simulated day comes to its end, unless SUMO raises an exception in one
  -- of these steps, and only after all 86401 of them, one more than a day has seconds; the vehicles
  -- that SUMO has taken on each of the three routes then carry the numbers from 0 on without a gap.
  pub run_simulation-IsDay :
      (wrap : W → W) (season : String) (start_hour : W) (answers : ℕ → Option (Answer W)) (fuel : ℕ)
      → 86_401 ≤ fuel
      → IsDay answers (run_simulation wrap season start_hour answers fuel)
  unfolding run_simulation
  run_simulation-IsDay wrap season start_hour answers fuel h =
      loop-IsDay wrap season _ answers fuel 0 _ (omega arith) (omega arith) (refl, refl, refl)
