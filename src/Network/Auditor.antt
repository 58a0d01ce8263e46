-- ===== src/Network/Auditor.antt =====
-- brain/src/environments/shadow_auditor.py: what the policy would have done, beside what was done.
pub mod Totals
use semaforo.Prelude.{
  ℕ, String, Bool, true, false, Option, none, some, List, [], ◌∷◌, ◌++◌, map, str_eq, if◌then◌else◌,
  ◌≡◌,
}
use semaforo.Float.{Float, sum_from}
use semaforo.Network.Graph.{or_else, ◌>>=◌}
use semaforo.Network.Policy.{Count, number, numeral, null, unreadable, Telemetry}

-- A line of the CSV file.
pub record AuditRow (W : Type 0) : Type 0 where
  pub timestamp : W
  pub intersection_id : String
  pub actual_phase : String
  pub ai_phase : String
  pub total_queue : Count W
  pub simulated_saved_seconds : W

-- The object published on `semaforo/audit/{intersection_id}`.
pub record AuditPayload (W : Type 0) : Type 0 where
  pub timestamp : W
  pub intersection_id : String
  pub actual_phase : String
  pub ai_phase : String
  pub cycle_saved_seconds : W
  pub total_saved_seconds : W

pub record ShadowAuditor (W : Type 0) : Type 0 where
  pub connected : Bool
  pub aggregated_saved_time : W
  pub rows : List (AuditRow W)
  pub published : List (AuditPayload W)

module _ {W : Type 0} ⦃f : Float W⦄ where
  unfoldable pub new_auditor : Bool → ShadowAuditor W
  new_auditor connected = record {
    connected = connected;
    aggregated_saved_time = f.ratio 0 1;
    rows = [];
    published = [];
  }

  -- total_queue * 2.0, which raises for what is no number
  abbrev pub doubled : Count W → Option W
  doubled (number x) = some (f.mul x (f.ratio 2 1))
  doubled (numeral x) = none
  doubled null = none
  doubled unreadable = none

  unfoldable pub saved_wait_time : String → String → Count W → Option W
  saved_wait_time actual ai queue = if str_eq actual ai then some (f.ratio 0 1) else doubled queue

  -- The row, the total and the published object for a message, with the policy's answer in hand.
  unfoldable pub write_audit : W → W → Telemetry W → String → W → ShadowAuditor W → ShadowAuditor W
  write_audit t u msg ai saved a =
      let total = f.add a.aggregated_saved_time saved in
      let row : AuditRow W = record {
        timestamp = t;
        intersection_id = msg.intersection_id;
        actual_phase = msg.phase;
        ai_phase = ai;
        total_queue = msg.total_vehicles;
        simulated_saved_seconds = saved;
      } in
      let payload : AuditPayload W = record {
        timestamp = u;
        intersection_id = msg.intersection_id;
        actual_phase = msg.phase;
        ai_phase = ai;
        cycle_saved_seconds = saved;
        total_saved_seconds = total;
      } in
      record a {
        aggregated_saved_time = total;
        rows = a.rows ++ row ∷ [];
        published = if a.connected then a.published ++ payload ∷ [] else a.published;
      }

  -- `t` and `u` are the two clock readings. `none` is a TypeError, raised before anything is written.
  unfoldable pub on_telemetry_received :
      (Telemetry W → Option String)
      → W
      → W
      → Telemetry W
      → ShadowAuditor W
      → Option (ShadowAuditor W)
  unfolding saved_wait_time write_audit
  on_telemetry_received predict t u msg a = do
    let ai = or_else (predict msg) "ERROR"
    saved ← saved_wait_time msg.phase ai msg.total_vehicles
    some (write_audit t u msg ai saved a)
