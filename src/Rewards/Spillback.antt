-- ===== src/Rewards/Spillback.antt =====
-- brain/src/rewards/spillback.py. What it asks of the traffic signal is an argument: the state string,
-- the controlled links, the outgoing lanes and their densities.
use Prim.Native.Char.{Char, code}
use semaforo.Prelude.{
  Bool, ◌||◌, ◌==◌, String, List, Option, none, some, [], ◌∷◌, if◌then◌else◌, arith, if_ind, All,
}
use semaforo.Prelude.Dict.{Dict, get, put}
use semaforo.Float.{Float, IsOrdered, ◌≼◌, clip01, max_f}
use semaforo.Float.Order.{clip-le_max, lt_max}
use semaforo.Rewards.Base.{IsPenalty, neg-clip-IsPenalty, zero-IsPenalty}

-- dict(zip(keys, values)), written into `d`
unfoldable pub dict_zip {ℓ} : {V : Type ℓ} → Dict V → List String → List V → Dict V
dict_zip d [] vs = d
dict_zip d (k ∷ ks) [] = d
dict_zip d (k ∷ ks) (v ∷ vs) = dict_zip (put d k v) ks vs

-- A controlled link: for each connection its incoming lane, its outgoing lane and the lane between.
abbrev pub Link : Type 0
Link = List (String × String × String)

-- signal_char in ("G", "g")
abbrev pub is_green : Char → Bool
is_green c = code c == b'G' || code c == b'g'

module _ {W : Type 0} ⦃f : Float W⦄ where
  -- The largest of the clipped values.
  unfoldable pub worst_from : W → List W → W
  worst_from best [] = best
  worst_from best (x ∷ xs) = worst_from (max_f best (clip01 x)) xs

  unfoldable pub compute_spillback_penalty : Option (List W) → W → W
  unfolding worst_from
  compute_spillback_penalty none rho_crit = f.ratio 0 1
  compute_spillback_penalty (some []) rho_crit = f.ratio 0 1
  compute_spillback_penalty (some (x ∷ xs)) rho_crit =
      let denom = max_f (f.sub (f.ratio 1 1) rho_crit) (f.ratio 1 1_000_000) in
      f.neg (clip01 (f.div (f.sub (worst_from (clip01 x) xs) rho_crit) denom))

module _ {W : Type 0} where
  -- What one green link adds: the occupancy of its first connection's outgoing lane, if it is known.
  unfoldable pub served_link : Dict W → Link → List W → List W
  served_link out_density [] rest = rest
  served_link out_density ((_, out_lane, _) ∷ more) rest = elim (get out_density out_lane) [
    | none ↦ rest
    | some x ↦ x ∷ rest
  ]

  -- The loop over `zip(state, links)`.
  unfoldable pub served_from : Dict W → List Char → List Link → List W
  unfolding served_link
  served_from out_density [] links = []
  served_from out_density (c ∷ state) [] = []
  served_from out_density (c ∷ state) (link ∷ links) =
      let rest = served_from out_density state links in
      if is_green c then served_link out_density link rest else rest

  unfoldable pub served_downstream_occupancies :
      List Char → List Link → List String → List W → List W
  unfolding served_from dict_zip
  served_downstream_occupancies state links out_lanes densities =
      served_from (dict_zip [] out_lanes densities) state links

module _ {W : Type 0} ⦃f : Float W⦄ where
  -- `base` is sumo_rl's `_diff_waiting_time_reward`.
  unfoldable pub diff_waiting_time_with_spillback : W → List W → W → W → W
  diff_waiting_time_with_spillback base served spillback_weight rho_crit =
      f.add base (f.mul spillback_weight (compute_spillback_penalty (some served) rho_crit))

module _ {W : Type 0} ⦃f : Float W⦄ (laws : IsOrdered W) where
  -- For every list of occupancies, absent and empty ones included, and every critical occupancy, the
  -- penalty lies between -1 and 0.
  pub compute_spillback_penalty-IsPenalty :
      (occ : Option (List W)) (rho_crit : W) → IsPenalty (compute_spillback_penalty occ rho_crit)
  unfolding compute_spillback_penalty
  compute_spillback_penalty-IsPenalty none rho = zero-IsPenalty laws
  compute_spillback_penalty-IsPenalty (some []) rho = zero-IsPenalty laws
  compute_spillback_penalty-IsPenalty (some (x ∷ xs)) rho = neg-clip-IsPenalty laws _

  open laws use {
    le_refl, le_trans, le_total, sub_mono, sub_self_le, div_mono, div-zero_le, neg_anti,
    le-neg_zero, ratio_pos,
  }

  clip01-le : (x r : W) → f.ratio 0 1 ≼ r → x ≼ r → clip01 x ≼ r
  clip01-le x r h k = le_trans _ _ _ (clip-le_max laws x _ _) (if_ind (λ y. y ≼ r) _ h k)

  worst_from-le :
      (xs : List W) (best r : W)
      → f.ratio 0 1 ≼ r
      → best ≼ r
      → All (λ x. x ≼ r) xs
      → worst_from best xs ≼ r
  unfolding worst_from
  worst_from-le [] best r h b k = b
  worst_from-le (x ∷ xs) best r h b k =
      worst_from-le xs _ r h (if_ind (λ y. y ≼ r) _ (clip01-le x r h k.0) b) k.1

  ratio_le :
      (rho worst : W)
      → f.ratio 0 1 ≼ rho
      → worst ≼ rho
      → f.div (f.sub worst rho) (max_f (f.sub (f.ratio 1 1) rho) (f.ratio 1 1_000_000))
        ≼ f.ratio 0 1
  ratio_le rho worst h k =
      let positive =
        lt_max laws _ (f.sub (f.ratio 1 1) rho) _
          (ratio_pos 1 1_000_000 (omega arith) (omega arith)) in
      le_trans _ _ _
        (div_mono _ _ _ positive
          (le_trans _ _ _ (sub_mono _ _ _ _ k (le_refl rho)) (sub_self_le rho)))
        (div-zero_le _ positive)

  -- If no served lane is above the critical occupancy, there is no penalty: it is 0.
  pub compute_spillback_penalty_free :
      (occ : List W) (rho_crit : W)
      → f.ratio 0 1 ≼ rho_crit
      → All (λ x. x ≼ rho_crit) occ
      → (f.ratio 0 1 ≼ compute_spillback_penalty (some occ) rho_crit)
        × (compute_spillback_penalty (some occ) rho_crit ≼ f.ratio 0 1)
  unfolding compute_spillback_penalty
  compute_spillback_penalty_free [] rho h k = (le_refl _, le_refl _)
  compute_spillback_penalty_free (x ∷ xs) rho h k = (
    le_trans _ _ _ le-neg_zero (neg_anti _ _ (clip01-le _ _ (le_refl _) (ratio_le rho _ h below))),
    (neg-clip-IsPenalty laws _).1,
  )
    where
      below : worst_from (clip01 x) xs ≼ rho
      below = worst_from-le xs (clip01 x) rho h (clip01-le x rho h k.0) k.1
