-- ===== src/Network/Auditor/Totals.antt =====
-- The auditor's running total against the rows that it wrote.
use semaforo.Prelude.{
  ◌≡◌, refl, ap, String, true, false, Option, some, List, [], ◌∷◌, ◌++◌, arith, length,
  length-append, Option-cases, inl, inr,
}
use mathlib.Core.Path.{subst}
use mathlib.Core.Option.{some-injective}
use semaforo.Network.Graph.{or_else}
use semaforo.Network.Graph.Roads.{bind_some}
use semaforo.Float.{Float, sum_from, sum_f}
use semaforo.Network.Policy.{Telemetry}
use semaforo.Network.Auditor.{
  AuditRow, ShadowAuditor, on_telemetry_received, saved_wait_time, write_audit,
}

module _ {W : Type 0} ⦃f : Float W⦄ where
  sum_from-append :
      (acc : W) (xs : List W) (x : W) → sum_from acc (xs ++ x ∷ []) ≡ f.add (sum_from acc xs) x
  unfolding sum_from
  sum_from-append acc [] x = refl
  sum_from-append acc (y ∷ xs) x = sum_from-append (f.add acc y) xs x

  abbrev pub saved_column : List (AuditRow W) → List W
  saved_column [] = []
  saved_column (r ∷ rs) = r.simulated_saved_seconds ∷ saved_column rs

  saved_column-append :
      (rs : List (AuditRow W)) (r : AuditRow W)
      → saved_column (rs ++ r ∷ []) ≡ saved_column rs ++ r.simulated_saved_seconds ∷ []
  saved_column-append [] r = refl
  saved_column-append (q ∷ rs) r =
      ap (λ t. q.simulated_saved_seconds ∷ t) (saved_column-append rs r)

  pub record IsTotalled (a : ShadowAuditor W) : Type 0 where
    pub total : a.aggregated_saved_time ≡ sum_f (saved_column a.rows)
    pub sent : a.connected ≡ true → length a.published ≡ length a.rows
    pub unsent : a.connected ≡ false → length a.published ≡ 0

  unfoldable pub observe :
      (Telemetry W → Option String) → W → W → Telemetry W → ShadowAuditor W → ShadowAuditor W
  observe predict t u msg a = or_else (on_telemetry_received predict t u msg a) a

  -- Telemetry one message after the other; one that raises leaves the auditor as it was.
  unfoldable pub observe_all :
      (Telemetry W → Option String) → List (W × W × Telemetry W) → ShadowAuditor W → ShadowAuditor W
  observe_all predict [] a = a
  observe_all predict ((t, u, msg) ∷ ms) a = observe_all predict ms (observe predict t u msg a)

  write_audit-IsTotalled :
      (t u : W) (msg : Telemetry W) (ai : String) (saved : W) (a : ShadowAuditor W)
      → IsTotalled a
      → IsTotalled (write_audit t u msg ai saved a)
  unfolding write_audit sum_f
  write_audit-IsTotalled t u msg ai saved a h = record {
    total =
        rw (saved_column-append a.rows _, sum_from-append (f.ratio 0 1) (saved_column a.rows) saved)
          (ap (λ s. f.add s saved) h.total);
    sent = λ c.
        rw c (omega (arith, length-append {0} a.published _, length-append {0} a.rows _, h.sent c));
    unsent = λ c. rw c (h.unsent c);
  }

  on_telemetry_received-IsTotalled :
      (predict : Telemetry W → Option String) (t u : W) (msg : Telemetry W) (a a' : ShadowAuditor W)
      → IsTotalled a
      → on_telemetry_received predict t u msg a ≡ some a'
      → IsTotalled a'
  unfolding on_telemetry_received
  on_telemetry_received-IsTotalled predict t u msg a a' h e =
      let ai = or_else (predict msg) "ERROR" in
      let (saved, _, e') = bind_some (saved_wait_time msg.phase ai msg.total_vehicles) _ a' e in
      subst IsTotalled (some-injective _ a' e') (write_audit-IsTotalled t u msg ai saved a h)

  observe-IsTotalled :
      (predict : Telemetry W → Option String) (t u : W) (msg : Telemetry W) (a : ShadowAuditor W)
      → IsTotalled a
      → IsTotalled (observe predict t u msg a)
  unfolding observe
  observe-IsTotalled predict t u msg a h =
      elim (Option-cases (on_telemetry_received predict t u msg a)) [
        | inl e ↦ rw e h
        | inr (a', e) ↦ rw e (on_telemetry_received-IsTotalled predict t u msg a a' h e)
      ]

  -- Whatever telemetry arrives, the total that the auditor keeps is the sum of the savings in its
  -- CSV rows, and it has published one message for each row if it is connected and none if not.
  pub observe_all-IsTotalled :
      (predict : Telemetry W → Option String) (ms : List (W × W × Telemetry W))
      (a : ShadowAuditor W)
      → IsTotalled a
      → IsTotalled (observe_all predict ms a)
  unfolding observe_all
  observe_all-IsTotalled predict [] a h = h
  observe_all-IsTotalled predict ((t, u, msg) ∷ ms) a h =
      observe_all-IsTotalled predict ms _ (observe-IsTotalled predict t u msg a h)
