-- ===== src/Coordination/GraphModel/Heap.antt =====
-- Python's `heapq` as the search uses it, on pairs of a time and a name: `heappop` takes the least of
-- the pairs, which are compared like tuples. How the heap orders the others is not seen.
use Prim.Native.Nat.{Ordering}
use Prim.Native.String
use semaforo.Prelude.{
  String, ◌≡◌, refl, Bool, true, false, List, [], ◌∷◌, All, ◌⊎◌, inl, inr, if◌then◌else◌, if_ind,
  if_ind_eq, arith, length,
}
use semaforo.Float.{Float, IsOrdered, ◌≼◌, lt}

abbrev pub leb_text : String → String → Bool
leb_text u v = elim (String.compare u v) [ Ordering.gt ↦ false | _ ↦ true ]

module _ {W : Type 0} ⦃f : Float W⦄ where
  abbrev pub le_entry : W × String → W × String → Bool
  le_entry (d, u) (e, v) = if lt d e then true else if lt e d then false else leb_text u v

  -- The least of `x ∷ xs`, and the others.
  unfoldable pub heappop : W × String → List (W × String) → (W × String) × List (W × String)
  heappop x [] = (x, [])
  heappop x (y ∷ ys) =
      let (least, rest) = heappop y ys in
      if le_entry x least then (x, y ∷ ys) else (least, x ∷ rest)

-- Some element meets the predicate.
abbrev pub Any {ℓ} : {A : Type ℓ} → (A → Type 0) → List A → Type 0
Any P [] = ⊥
Any P (x ∷ xs) = P x ⊎ Any P xs

pub Any-mono {ℓ} :
    {A : Type ℓ} (P Q : A → Type 0) (xs : List A) → ((x : A) → P x → Q x) → Any P xs → Any Q xs
Any-mono P Q [] h a = elim a [ ]
Any-mono P Q (x ∷ xs) h (inl p) = inl (h x p)
Any-mono P Q (x ∷ xs) h (inr a) = inr (Any-mono P Q xs h a)

pub All-mono {ℓ} :
    {A : Type ℓ} (P Q : A → Type 0) (xs : List A) → ((x : A) → P x → Q x) → All P xs → All Q xs
All-mono P Q [] h a = tt
All-mono P Q (x ∷ xs) h a = (h x a.0, All-mono P Q xs h a.1)

pub All-Any {ℓ} :
    {A : Type ℓ} (P Q : A → Type 0) {C : Type 0} (xs : List A)
    → All P xs
    → Any Q xs
    → ((x : A) → P x → Q x → C)
    → C
All-Any P Q [] h a k = elim a [ ]
All-Any P Q (x ∷ xs) h (inl q) k = k x h.0 q
All-Any P Q (x ∷ xs) h (inr a) k = All-Any P Q xs h.1 a k

module _ {W : Type 0} ⦃f : Float W⦄ where
  -- The popped entry and the rest are the entries that were there.
  pub heappop-All :
      (P : W × String → Type 0) (x : W × String) (xs : List (W × String))
      → All P (x ∷ xs)
      → P (heappop x xs).0 × All P (heappop x xs).1
  unfolding heappop
  heappop-All P x [] h = (h.0, tt)
  heappop-All P x (y ∷ ys) h =
      let (least, rest) = heappop-All P y ys h.1 in
      if_ind (λ (p : (W × String) × List (W × String)). P p.0 × All P p.1) _ (h.0, h.1)
        (least, (h.0, rest))

  pub heappop-Any :
      (P : W × String → Type 0) (x : W × String) (xs : List (W × String))
      → Any P (x ∷ xs)
      → P (heappop x xs).0 ⊎ Any P (heappop x xs).1
  unfolding heappop
  heappop-Any P x [] (inl p) = inl p
  heappop-Any P x [] (inr a) = elim a [ ]
  heappop-Any P x (y ∷ ys) h =
      if_ind (λ (p : (W × String) × List (W × String)). P p.0 ⊎ Any P p.1)
        (le_entry x (heappop y ys).0) {x = (x, y ∷ ys)}
        {y = ((heappop y ys).0, x ∷ (heappop y ys).1)} h
        (elim h [
          | inl p ↦ inr (inl p)
          | inr a ↦ elim (heappop-Any P y ys a) [ inl p ↦ inl p | inr b ↦ inr (inr b) ]
        ])

  pub length-heappop :
      (x : W × String) (xs : List (W × String)) → length (heappop x xs).1 ≡ length xs
  unfolding heappop
  length-heappop x [] = refl
  length-heappop x (y ∷ ys) = ground (arith, length-heappop y ys)

module _ {W : Type 0} ⦃f : Float W⦄ (laws : IsOrdered W) where
  open laws use {le_refl, le_trans, le_total}

  le_entry-le : (x y : W × String) → le_entry x y ≡ true → x.0 ≼ y.0
  le_entry-le (d, u) (e, v) h = ground (arith, le_total d e)

  le_entry-ge : (x y : W × String) → le_entry x y ≡ false → y.0 ≼ x.0
  le_entry-ge (d, u) (e, v) h = ground (arith, le_total d e)

  -- No entry is below the popped one.
  pub heappop-le :
      (x : W × String) (xs : List (W × String)) → All (λ e. (heappop x xs).0.0 ≼ e.0) (x ∷ xs)
  unfolding heappop
  heappop-le x [] = (le_refl x.0, tt)
  heappop-le x (y ∷ ys) =
      let below = heappop-le y ys in
      if_ind_eq (λ (p : (W × String) × List (W × String)). All (λ e. p.0.0 ≼ e.0) (x ∷ y ∷ ys)) _
        (λ e. (
          le_refl x.0,
          All-mono (λ e. (heappop y ys).0.0 ≼ e.0) (λ e. x.0 ≼ e.0) (y ∷ ys)
              (λ z h. le_trans _ _ _ (le_entry-le x _ e) h) below,
        ))
        (λ e. (le_entry-ge x _ e, below))
