-- ===== src/Vision/Harness/Agree.antt =====
-- The harness decides as the coordinator does, on the same observation and with the same actor.
use semaforo.Prelude.{
  ℕ, zero, suc, ◌≡◌, refl, String, Option, none, some, List, length, ◌==◌, if◌then◌else◌, ltb,
  Bool-cases, inl, inr, arith,
}
use semaforo.Float.{Float, IsOrdered}
use semaforo.Network.Graph.{◌>>=◌}
use semaforo.Network.Policy.{
  Telemetry, argmax, infer, predict, phase_by_action, obs_size, telemetry_to_observation,
}
use semaforo.Network.Policy.Greedy.{IsGreatestAt, argmax-IsGreatestAt}
use semaforo.Vision.Harness.{decide_action}

bind-eq-some {ℓ κ} :
    {A : Type ℓ} {B : Type κ} (m : Option A) (k : A → Option B) {b : B}
    → (m >>= k) ≡ some b
    → (a : A) × (m ≡ some a) × (k a ≡ some b)
bind-eq-some none k h = cc
bind-eq-some (some a) k h = (a, refl, h)

-- An action that has a phase is not clamped.
clamp_named :
    (k : ℕ) {phase : String} → phase_by_action k ≡ some phase → (if ltb 1 k then 1 else k) ≡ k
clamp_named zero h = ground arith
clamp_named (suc zero) h = ground arith
clamp_named (suc (suc k)) h = cc

module _ {W : Type 0} ⦃f : Float W⦄ where
  infer-decide_action :
      (session : List W → Option (List W)) (obs logits : List W) (k : ℕ) {phase : String}
      → infer session obs ≡ some logits
      → argmax logits ≡ some k
      → phase_by_action k ≡ some phase
      → decide_action session obs ≡ some (k, logits)
  unfolding infer decide_action
  infer-decide_action session obs logits k h a p = elim (Bool-cases (length obs == obs_size)) [
    | inl e ↦
        let given : session obs ≡ some logits = rw e at h in rw (e, given, a, clamp_named k p) refl
    | inr e ↦ let absurd : none ≡ some logits = rw e at h in cc
  ]

  -- If the coordinator's policy recommends a phase for some telemetry, the harness takes the action
  -- of that phase on the observation that the telemetry is projected on, and no logit of the actor
  -- there is greater than that of this action.
  pub predict-decide_action :
      (laws : IsOrdered W) (session : List W → Option (List W)) (t : Telemetry W) (phase : String)
      → predict session t ≡ some phase
      → (obs logits : List W) × (k : ℕ) × (m : W) × (telemetry_to_observation t ≡ some obs)
        × (decide_action session obs ≡ some (k, logits))
        × (phase_by_action k ≡ some phase)
        × IsGreatestAt laws logits k m
  unfolding predict
  predict-decide_action laws session t phase h =
      let (obs, o, h') = bind-eq-some (telemetry_to_observation t) _ h in
      let (logits, l, h'') = bind-eq-some (infer session obs) _ h' in
      let (k, a, p) = bind-eq-some (argmax logits) _ h'' in
      let (m, greatest) = argmax-IsGreatestAt laws logits k a in
      (obs, logits, k, m, o, infer-decide_action session obs logits k l a p, p, greatest)
