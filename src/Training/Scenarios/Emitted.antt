-- ===== src/Training/Scenarios/Emitted.antt =====
-- The flows of a demand: what they refer to is there, and SUMO accepts their probabilities.
use semaforo.Prelude.{ℕ, ◌≡◌, refl, String, List, inl, inr, All, All-append, if_ind_eq, arith}
use semaforo.Float.{Float, IsOrdered, ◌≼◌, lt}
use semaforo.Float.Order.{zero-le-one}
use semaforo.Coordination.GraphModel.Heap.{Any}
use semaforo.Training.Scenarios.{ScenarioSpec}
use semaforo.Training.Scenarios.Routes.{
  Flow, Demand, cross_routes, vtypes, prob, flow, cross_flows, scenario_flows, scenario_to_routes,
}

module _ {W : Type 0} ⦃f : Float W⦄ where
  -- The flow's route and vehicle type are declared, and it emits with a probability from 0.00001 to 1.
  abbrev pub IsEmitted : Demand W → Flow W → Type 0
  IsEmitted demand fl =
      Any (λ r. r.id ≡ fl.route) demand.routes
      × Any (λ v. v.id ≡ fl.vtype) demand.vtypes
      × (f.ratio 1 100_000 ≼ fl.probability)
      × (fl.probability ≼ f.ratio 1 1)

module _ {W : Type 0} ⦃f : Float W⦄ (laws : IsOrdered W) where
  open laws use {le_refl, le_trans, le_total}

  prob_le : (x : W) → prob x ≼ f.ratio 1 1
  unfolding prob
  prob_le x = ground (
    arith,
    le_total (f.ratio 1 1) (f.div x (f.ratio 3600 1)),
    le_refl (f.ratio 1 1),
    zero-le-one laws,
  )

  flow-IsEmitted :
      (demand : Demand W) (end_ : ℕ) (id vtype route : String) (x : W)
      → Any (λ r. r.id ≡ route) demand.routes
      → Any (λ v. v.id ≡ vtype) demand.vtypes
      → All (IsEmitted demand) (flow end_ id vtype route (prob x))
  unfolding flow
  flow-IsEmitted demand end_ id vtype route x r v =
      if_ind_eq {A = List (Flow W)} (All (IsEmitted demand)) (lt (prob x) (f.ratio 1 100_000))
        (λ e. tt) (λ e. ((r, v, ground arith, prob_le x), tt))

  -- Whatever the scenario, each flow of the demand has a route and a vehicle type that the demand
  -- declares, and a probability from 0.00001 to 1, as SUMO asks.
  pub scenario_to_routes-IsEmitted :
      (round3 : W → W) (spec : ScenarioSpec W)
      → All (IsEmitted (scenario_to_routes round3 spec)) (scenario_to_routes round3 spec).flows
  unfolding scenario_to_routes scenario_flows cross_flows vtypes cross_routes
  scenario_to_routes-IsEmitted round3 spec =
      let demand = scenario_to_routes round3 spec in
      let P = IsEmitted demand in
      let emitted = flow-IsEmitted demand in
      All-append P _ _
        (All-append P _ _
          (All-append P _ _
            (All-append P _ _
              (All-append P _ _
                (All-append P _ _ (emitted _ _ _ _ _ (inl refl) (inl refl))
                  (emitted _ _ _ _ _ (inr (inl refl)) (inl refl)))
                (emitted _ _ _ _ _ (inl refl) (inr (inl refl))))
              (emitted _ _ _ _ _ (inr (inl refl)) (inr (inl refl))))
            (All-append P _ _
              (All-append P _ _ (emitted _ _ _ _ _ (inr (inr (inr (inr (inl refl))))) (inl refl))
                (emitted _ _ _ _ _ (inr (inr (inr (inr (inr (inl refl)))))) (inl refl)))
              (All-append P _ _
                (All-append P _ _
                  (emitted _ _ _ _ _ (inr (inr (inr (inr (inr (inr (inl refl))))))) (inl refl))
                  (emitted _ _ _ _ _ (inr (inr (inr (inr (inr (inr (inr (inl refl))))))))
                    (inl refl)))
                (All-append P _ _
                  (All-append P _ _
                    (emitted _ _ _ _ _ (inr (inr (inr (inr (inr (inr (inr (inr (inl refl)))))))))
                      (inl refl))
                    (emitted _ _ _ _ _
                      (inr (inr (inr (inr (inr (inr (inr (inr (inr (inl refl)))))))))) (inl refl)))
                  (tt)))))
          (emitted _ _ _ _ _ (inr (inr (inl refl))) (inl refl)))
        (emitted _ _ _ _ _ (inr (inr (inr (inl refl)))) (inl refl))
