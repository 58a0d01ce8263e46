-- ===== src/Network/Policy/Greedy.antt =====
-- The phase that the policy recommends.
use semaforo.Prelude.{
  ℕ, suc, ◌+◌, ◌≡◌, refl, sym, ◌∙◌, true, some, List, [], ◌∷◌, ◌⊎◌, inl, inr, get_elem?, All, arith,
  Bool-cases,
}
use semaforo.Float.{Float, IsOrdered, ◌≼◌, lt}
use semaforo.Network.Policy.{argmax_from, argmax}

module _ {W : Type 0} ⦃f : Float W⦄ (laws : IsOrdered W) where
  open laws use {le_refl, le_trans, le_total}

  -- `m` stands at place `k`, and none of the numbers is greater.
  abbrev pub IsGreatestAt : List W → ℕ → W → Type 0
  IsGreatestAt xs k m = (get_elem? xs k ≡ some m) × All (λ x. x ≼ m) xs

  lt-le : (a b : W) → lt a b ≡ true → a ≼ b
  lt-le a b h = elim (le_total a b) [
    | inl k ↦ k
    | inr k ↦ let absurd : ⊥ = ground arith in elim absurd [ ]
  ]

  All-le_trans : (a b : W) (xs : List W) → a ≼ b → All (λ x. x ≼ a) xs → All (λ x. x ≼ b) xs
  All-le_trans a b [] h k = tt
  All-le_trans a b (x ∷ xs) h k = (le_trans x a b k.0 h, All-le_trans a b xs h k.1)

  -- Either the best so far stays, or one of the numbers to come is at least as great.
  argmax_from_lem :
      (best : W) (at i : ℕ) (xs : List W)
      → ((argmax_from best at i xs ≡ at) × All (λ x. x ≼ best) xs)
        ⊎ ((k : ℕ) × (m : W) × (argmax_from best at i xs ≡ i + k)
            × (best ≼ m)
            × IsGreatestAt xs k m)
  unfolding argmax_from
  argmax_from_lem best at i [] = inl (refl, tt)
  argmax_from_lem best at i (x ∷ xs) = elim (Bool-cases (lt best x)) [
    | inl e ↦ rw e (elim (argmax_from_lem x i (i + 1) xs) [
      | inl (p, h) ↦ inr (0, x, p ∙ omega arith, lt-le best x e, (refl, (le_refl x, h)))
      | inr (k, m, p, up, (here, h)) ↦
          inr (suc k, m, p ∙ omega arith, le_trans best x m (lt-le best x e) up, (here, (up, h)))
    ])
    | inr e ↦
        let below : x ≼ best = ground arith in
        rw e (elim (argmax_from_lem best at (i + 1) xs) [
          | inl (p, h) ↦ inl (p, (below, h))
          | inr (k, m, p, up, (here, h)) ↦
              inr (suc k, m, p ∙ omega arith, up, (here, (le_trans x best m below up, h)))
        ])
  ]

  pub argmax-IsGreatestAt :
      (xs : List W) (k : ℕ) → argmax xs ≡ some k → (m : W) × IsGreatestAt xs k m
  unfolding argmax
  argmax-IsGreatestAt [] k h = cc
  argmax-IsGreatestAt (x ∷ xs) k h =
      let at : argmax_from x 0 1 xs ≡ k = cc in
      elim (argmax_from_lem x 0 1 xs) [
        | inl (p, h') ↦ let here : 0 ≡ k = sym p ∙ at in (x, (rw (← here) refl, (le_refl x, h')))
        | inr (j, m, p, up, (here, h')) ↦
            let there : suc j ≡ k = omega (arith, p, at) in (m, (rw (← there) here, (up, h')))
      ]
