-- ===== src/Traffic/Seasons.antt =====
-- scripts/simulate_necochea_seasons.py: the traffic of a summer or a winter day, injected into SUMO.
pub mod Injected
use semaforo.Prelude.{
  ℕ, zero, suc, ◌+◌, String, Bool, true, false, ◌&&◌, ◌||◌, Option, none, some, List, [], ◌∷◌, ◌++◌,
  str_eq, leb, if◌then◌else◌, pos,
}
use semaforo.Prelude.Text.{◌+++◌, show_int}
use semaforo.Float.{Float, lt}

module _ {W : Type 0} ⦃f : Float W⦄ where
  -- n * 3600, for a number of half hours
  abbrev pub half_hours : ℕ → W
  half_hours n = f.mul (f.ratio n 2) (f.ratio 3600 1)

  -- a <= t <= b
  abbrev pub between : ℕ → ℕ → W → Bool
  between a b t = f.le (half_hours a) t && f.le t (half_hours b)

  abbrev pub winter : W → W × W × W
  winter t =
      if f.le (f.ratio 0 1) t && lt t (half_hours 12)
      then (f.ratio 1 1000, f.ratio 1 1000, f.ratio 1 10_000)
      else (f.ratio 2 100, f.ratio 2 100, f.ratio 5 1000)

  abbrev pub summer : W → W × W × W
  summer t =
      if between 22 28 t
      then (f.ratio 50 100, f.ratio 10 100, f.ratio 5 100)
      else if between 37 43 t
      then (f.ratio 10 100, f.ratio 50 100, f.ratio 5 100)
      else if between 44 48 t || between 0 6 t
      then (f.ratio 5 100, f.ratio 15 100, f.ratio 2 100)
      else (f.ratio 20 100, f.ratio 20 100, f.ratio 10 100)

  unfoldable pub get_probabilities : String → W → W × W × W
  get_probabilities season t =
      if str_eq season "invierno"
      then winter t
      else if str_eq season "verano"
      then summer t
      else (f.ratio 0 1, f.ratio 0 1, f.ratio 0 1)

-- The vehicles of one route: the next number, and the names that SUMO has taken, oldest first.
pub record Stream : Type 0 where
  pub veh_counter : ℕ
  pub added : List String

-- A draw of `random.random()`, and whether SUMO takes the vehicle if it is offered.
pub record Draw (W : Type 0) : Type 0 where
  pub value : W
  pub accepted : Bool

-- The three routes: to the beach, to downtown, and across.
pub record Traffic : Type 0 where
  pub beach : Stream
  pub down : Stream
  pub cross : Stream

-- What is answered in one step of the loop; `none` for it is an exception, which nothing catches.
pub record Answer (W : Type 0) : Type 0 where
  pub min_expected_number : ℕ
  pub time : W
  pub for_beach : Draw W
  pub for_down : Draw W
  pub for_cross : Draw W

-- A vehicle that is offered to SUMO: the TraCIException of a refusal is passed over.
unfoldable pub add_vehicle : String → Bool → Stream → Stream
add_vehicle prefix accepted s =
    if accepted
    then record {
      veh_counter = s.veh_counter + 1;
      added = s.added ++ (prefix +++ show_int (pos s.veh_counter)) ∷ [];
    }
    else s

module _ {W : Type 0} ⦃f : Float W⦄ where
  unfoldable pub inject : String → W → Draw W → Stream → Stream
  unfolding add_vehicle
  inject prefix probability draw s =
      if lt draw.value probability then add_vehicle prefix draw.accepted s else s

  unfoldable pub generate_traffic : String → W → Answer W → Traffic → Traffic
  unfolding inject get_probabilities
  generate_traffic season t answer v =
      let (prob_beach, prob_down, prob_cross) = get_probabilities season t in
      record {
        beach = inject "veh_beach_" prob_beach answer.for_beach v.beach;
        down = inject "veh_down_" prob_down answer.for_down v.down;
        cross = inject "veh_cross_" prob_cross answer.for_cross v.cross;
      }

-- How a run ends, with the number of its steps; `out_of_fuel` is a loop that is still running.
pub data Run : Type 0 where
  finished : ℕ → Traffic → Run
  crashed out_of_fuel : Run

module _ {W : Type 0} ⦃f : Float W⦄ where
  -- `wrap` is the remainder of a float by 86400; `answers step` is what is answered in that step.
  unfoldable pub loop : (W → W) → String → W → (ℕ → Option (Answer W)) → ℕ → ℕ → Traffic → Run
  unfolding generate_traffic
  loop wrap season offset answers zero step v = out_of_fuel
  loop wrap season offset answers (suc fuel) step v = elim (answers step) [
    | none ↦ crashed
    | some answer ↦
        let v' = generate_traffic season (wrap (f.add answer.time offset)) answer v in
        let rest = loop wrap season offset answers fuel (step + 1) v' in
        if leb 0 answer.min_expected_number
        then if leb 86_401 (step + 1) then finished (step + 1) v' else rest
        else finished step v
  ]

  unfoldable pub run_simulation : (W → W) → String → W → (ℕ → Option (Answer W)) → ℕ → Run
  run_simulation wrap season start_hour answers fuel =
      let none_yet : Stream = record { veh_counter = 0; added = [] } in
      loop wrap season (f.mul start_hour (f.ratio 3600 1)) answers fuel 0
        (record { beach = none_yet; down = none_yet; cross = none_yet })
