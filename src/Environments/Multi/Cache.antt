-- ===== src/Environments/Multi/Cache.antt =====
-- The cache of observations: what is written to it, and what is reported of it.
use semaforo.Prelude.{
  is_some, zero, ℕ, suc, ◌*◌, ◌≡◌, refl, ◌∙◌, ap, Bool, true, false, String, Option, none, some,
  List, [], ◌∷◌, ◌++◌, map, length, length-map, length-append, take, All, All-append, if◌then◌else◌,
  if_ind, Bool-cases, inl, inr, arith, str_eq,
}
use semaforo.Prelude.Dict.{Dict, get, put, get-put}
use semaforo.Float.{Float, IsOrdered, ◌≼◌, clip01}
use semaforo.Float.Order.{zero-le-one}
use semaforo.Network.Graph.{◌>>=◌}
use semaforo.Coordination.GraphModel.Heap.{All-mono}
use semaforo.Environments.Lanes.{zeros}
use semaforo.Environments.OwnState.Layout.{map-clip01_range, length-assign}
use semaforo.Environments.Multi.{
  Observation, local, with_state, MultiEnv, possible_agents, fixed_obs, fixed_obs_size, empty_cache,
  absorb_all, absorb, concatenate, global_state, dict_from, build_observations,
}

module _ {W : Type 0} ⦃f : Float W⦄ where
  abbrev pub InRange : List W → Type 0
  InRange xs = All (λ x. (f.ratio 0 1 ≼ x) × (x ≼ f.ratio 1 1)) xs

  -- As many numbers from 0 to 1.
  abbrev pub IsFixed : ℕ → List W → Type 0
  IsFixed n obs = (length obs ≡ n) × InRange obs

  -- The agents are in the cache, each with 17 numbers from 0 to 1.
  abbrev pub Cached : Dict (List W) → String → Type 0
  Cached cache a = (obs : List W) × (get cache a ≡ some obs) × IsFixed 17 obs

  abbrev pub IsCached : Dict (List W) → Type 0
  IsCached cache = All (Cached cache) possible_agents

module _ {W : Type 0} ⦃f : Float W⦄ (laws : IsOrdered W) where
  open laws use {le_refl}

  fixed_obs-IsFixed : (arr : List W) → IsFixed 17 (fixed_obs arr)
  fixed_obs-IsFixed arr = (
    length-map _ clip01 ∙ length-assign {A = W} (take 17 arr) (zeros 17) 0,
    map-clip01_range laws _,
  )

  put-Cached :
      (cache : Dict (List W)) (k : String) (arr : List W) (a : String)
      → Cached cache a
      → Cached (put cache k (fixed_obs arr)) a
  put-Cached cache k arr a (obs, g, h) = elim (Bool-cases (str_eq k a)) [
    | inl e ↦ (fixed_obs arr, rw (get-put cache k a (fixed_obs arr), e) refl, fixed_obs-IsFixed arr)
    | inr e ↦ (obs, rw (get-put cache k a (fixed_obs arr), e) g, h)
  ]

  absorb_all-IsCached :
      (cache raw_obs : Dict (List W)) → IsCached cache → IsCached (absorb_all cache raw_obs)
  unfolding absorb_all
  absorb_all-IsCached cache [] h = h
  absorb_all-IsCached cache ((agent, vec) ∷ raw_obs) h =
      absorb_all-IsCached
        (if is_some (get cache agent) then put cache agent (fixed_obs vec) else cache) raw_obs
        (if_ind {A = Dict (List W)} IsCached _
          (All-mono (Cached cache) (Cached (put cache agent (fixed_obs vec))) possible_agents
            (put-Cached cache agent vec) h)
          h)

  pub absorb-IsCached :
      (cache : Dict (List W)) (raw_obs : Option (Dict (List W)))
      → IsCached cache
      → IsCached (absorb cache raw_obs)
  unfolding absorb
  absorb-IsCached cache none h = h
  absorb-IsCached cache (some raw_obs) h = absorb_all-IsCached cache raw_obs h

  replicate-InRange : (n : ℕ) → InRange {W = W} (zeros n)
  replicate-InRange zero = tt
  replicate-InRange (suc n) = ((le_refl _, zero-le-one laws), replicate-InRange n)

  pub empty_cache-IsCached : IsCached {W = W} empty_cache
  unfolding get semaforo.Environments.Multi.dict_of
  empty_cache-IsCached =
      let zero_obs : IsFixed {W = W} 17 (zeros 17) = (refl, replicate-InRange 17) in
      ((zeros 17, refl, zero_obs), ((zeros 17, refl, zero_obs), ((zeros 17, refl, zero_obs), tt)))

module _ {W : Type 0} ⦃f : Float W⦄ where
  concatenate-IsFixed :
      (cache : Dict (List W)) (agents : List String)
      → All (Cached cache) agents
      → (state : List W) × (concatenate cache agents ≡ some state)
        × IsFixed (17 * length agents) state
  unfolding concatenate
  concatenate-IsFixed cache [] h = ([], refl, (refl, tt))
  concatenate-IsFixed cache (a ∷ agents) ((obs, g, k), h) =
      let (rest, e, l) = concatenate-IsFixed cache agents h in
      (
        obs ++ rest,
        rw (concatenate, g, e) refl,
        (omega (arith, length-append obs rest, k.0, l.0), All-append _ obs rest k.1 l.1),
      )

-- Where each value is there, so is the dictionary, with the keys in order.
pub dict_from-All {ℓ} :
    {V : Type ℓ} (value : String → Option V) (Q : V → Type 0) (agents : List String)
    → All (λ a. (v : V) × (value a ≡ some v) × Q v) agents
    → (d : Dict V) × (dict_from value agents ≡ some d)
      × (map (λ e. e.0) d ≡ agents)
      × All (λ e. Q e.1) d
unfolding dict_from
dict_from-All value Q [] h = ([], refl, refl, tt)
dict_from-All value Q (a ∷ agents) ((v, g, q), h) =
    let (d, e, k, l) = dict_from-All value Q agents h in
    ((a, v) ∷ d, rw (dict_from, g, e) refl, ap (λ r. a ∷ r) k, (q, l))

module _ {W : Type 0} ⦃f : Float W⦄ where
  -- What an agent observes: 17 numbers from 0 to 1, with the state if that is asked for, which has 17
  -- for each of the three agents.
  abbrev pub IsReport : Bool → Observation W → Type 0
  IsReport false (local obs) = IsFixed 17 obs
  IsReport false (with_state obs state) = ⊥
  IsReport true (local obs) = ⊥
  IsReport true (with_state obs state) = IsFixed 17 obs × IsFixed 51 state

  -- A report on every agent, in the agents' order.
  abbrev pub IsReported : Bool → Dict (Observation W) → Type 0
  IsReported include_state d =
      (map (λ e. e.0) d ≡ possible_agents) × All (λ e. IsReport include_state e.1) d

module _ {S W : Type 0} ⦃f : Float W⦄ where
  pub build_observations-IsReported :
      (env : MultiEnv S W)
      → IsCached env.obs_cache
      → (d : Dict (Observation W)) × (build_observations env possible_agents ≡ some d)
        × IsReported env.include_global_state d
  unfolding build_observations global_state
  build_observations-IsReported env h = elim (Bool-cases env.include_global_state) [
    | inl e ↦
        let (state, g, k) = concatenate-IsFixed env.obs_cache possible_agents h in
        let (d, at, names, all) =
          dict_from-All (λ a. get env.obs_cache a >>= (λ obs. some (with_state obs state)))
            (IsReport true) possible_agents
            (All-mono (Cached env.obs_cache)
              (λ a.
                (v : Observation W) × (get env.obs_cache a >>= (λ obs. some (with_state obs state))
                  ≡ some v)
                × IsReport true v)
              possible_agents (λ a c. (with_state c.0 state, rw c.1 refl, (c.2, k))) h) in
        (d, rw (build_observations, e, global_state, g) at, rw e (names, all))
    | inr e ↦
        let (d, at, names, all) =
          dict_from-All (λ a. get env.obs_cache a >>= (λ obs. some (local obs))) (IsReport false)
            possible_agents
            (All-mono (Cached env.obs_cache)
              (λ a.
                (v : Observation W) × (get env.obs_cache a >>= (λ obs. some (local obs)) ≡ some v)
                × IsReport false v)
              possible_agents (λ a c. (local c.0, rw c.1 refl, c.2)) h) in
        (d, rw (build_observations, e) at, rw e (names, all))
  ]
