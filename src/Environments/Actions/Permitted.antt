-- ===== src/Environments/Actions/Permitted.antt =====
-- Which actions reach SUMO.
use semaforo.Prelude.{
  ℕ, ◌+◌, ◌%◌, ◌≤◌, ◌<◌, ◌≡◌, refl, ◌⊎◌, inl, inr, String, Option, none, some, List, [], ◌∷◌,
  length, All, arith, ℤ, py_mod-lt, str_eq, eq_iff, Bool-cases, sym,
}
use mathlib.Core.Path.{subst}
use semaforo.Prelude.Dict.{Dict, get, put}
use semaforo.Environments.Signal.{TrafficSignal}
use semaforo.Environments.Actions.{
  correct_action, keep_in_range, force_next, store_actions, step_async, phase_count, clamp_from,
  clamp_actions,
}

-- Of a signal that shows one of its phases, the corrected action is one of its phases too, and it is
-- the current one or the next; the current phase and the next are left as they are.
pub correct_action_lem :
    (current num action : ℕ)
    → current < num
    → (correct_action current num action < num)
      × ((correct_action current num action ≡ current)
          ⊎ (correct_action current num action ≡ (current + 1) % num))
      × (correct_action current num current ≡ current)
      × (correct_action current num ((current + 1) % num) ≡ (current + 1) % num)
unfolding correct_action keep_in_range force_next
correct_action_lem current num action h = ground arith

-- Each entry of the dictionary written to satisfies what the new entry and the old ones do.
put-All :
    {V : Type 0} (P : String → V → Type 0) (d : Dict V) (k : String) (v : V)
    → P k v
    → All (λ e. P e.0 e.1) d
    → All (λ e. P e.0 e.1) (put d k v)
unfolding put
put-All P [] k v p h = (p, tt)
put-All {V} P ((j, w) ∷ d) k v p h = elim (Bool-cases (str_eq j k)) [
  | inl e ↦ rw e (subst (λ x. P x v) (sym ((eq_iff j k).0 e)) p, h.1)
  | inr e ↦ rw e (h.0, put-All P d k v p h.1)
]

module _ {W : Type 0} (signals : Dict (TrafficSignal W)) where
  -- The named signal exists, the action is one of its phases, and it is the current one or the next.
  abbrev pub IsPermitted : String → ℕ → Type 0
  IsPermitted id act =
      (ts : TrafficSignal W) × (get signals id ≡ some ts)
      × (act < ts.num_green_phases)
      × ((act ≡ ts.green_phase) ⊎ (act ≡ (ts.green_phase + 1) % ts.num_green_phases))

  -- Every signal shows one of its phases.
  abbrev pub AllShow : Type 0
  AllShow =
      (id : String) (ts : TrafficSignal W)
      → get signals id ≡ some ts
      → ts.green_phase < ts.num_green_phases

  -- The environment knows the signal.
  abbrev pub IsKnown : String → Type 0
  IsKnown id = (ts : TrafficSignal W) × (get signals id ≡ some ts)

  store_actions-IsPermitted :
      (ids : List String) (actions : List ℕ) (d : Dict ℕ)
      → AllShow
      → All IsKnown ids
      → length ids ≤ length actions
      → All (λ e. IsPermitted e.0 e.1) d
      → (d' : Dict ℕ) × (store_actions signals d ids actions ≡ some d')
        × All (λ e. IsPermitted e.0 e.1) d'
  unfolding store_actions
  store_actions-IsPermitted [] actions d show known enough h = (d, refl, h)
  store_actions-IsPermitted (id ∷ ids) [] d show known enough h = elim enough [ ]
  store_actions-IsPermitted (id ∷ ids) (action ∷ actions) d show ((ts, found), known) enough h =
      let ok = correct_action_lem ts.green_phase ts.num_green_phases action (show id ts found) in
      rw found (
        store_actions-IsPermitted ids actions _ show known (omega arith)
          (put-All IsPermitted d id _ (ts, found, ok.0, ok.1) h))

  -- If every signal shows one of its phases, the names are of signals and there is an action for each,
  -- then `step_async` raises nothing, and each action that it stores is a phase of its signal, namely
  -- the current one or the next.
  pub step_async-IsPermitted :
      (ids : List String) (actions : List ℕ)
      → AllShow
      → All IsKnown ids
      → length ids ≤ length actions
      → (d : Dict ℕ) × (step_async signals ids actions ≡ some d) × All (λ e. IsPermitted e.0 e.1) d
  unfolding step_async
  step_async-IsPermitted ids actions show known enough =
      store_actions-IsPermitted ids actions [] show known enough tt

  phase_count-pos : (o : Option (TrafficSignal W)) → 0 < phase_count o
  unfolding phase_count
  phase_count-pos none = omega arith
  phase_count-pos (some ts) = ground arith

  -- The action is below the number of phases that `_clamp_actions` reads for the agent.
  abbrev pub IsInRange : String → ℕ → Type 0
  IsInRange agent act = act < phase_count (get signals agent)

  clamp_from-IsInRange :
      (actions : List (String × ℤ)) (safe : Dict ℕ)
      → All (λ e. IsInRange e.0 e.1) safe
      → All (λ e. IsInRange e.0 e.1) (clamp_from signals safe actions)
  unfolding clamp_from
  clamp_from-IsInRange [] safe h = h
  clamp_from-IsInRange ((agent, act) ∷ actions) safe h = clamp_from-IsInRange actions _ (
      put-All IsInRange safe agent _
        (py_mod-lt act (phase_count (get signals agent)) (phase_count-pos (get signals agent))) h)

  -- Whatever actions are asked for, negative ones and those of unknown agents included, every action
  -- that `_clamp_actions` passes on is below the agent's number of phases, two if that is 0 or
  -- the agent is unknown.
  pub clamp_actions-IsInRange :
      (actions : List (String × ℤ)) → All (λ e. IsInRange e.0 e.1) (clamp_actions signals actions)
  unfolding clamp_actions
  clamp_actions-IsInRange actions = clamp_from-IsInRange actions [] tt
