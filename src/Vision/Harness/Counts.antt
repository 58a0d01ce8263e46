-- ===== src/Vision/Harness/Counts.antt =====
-- The counts per direction that the decisions are made on.
use mathlib.Core.Path.{subst}
use semaforo.Prelude.{
  ℕ, zero, suc, ◌+◌, ◌≤◌, ◌≡◌, refl, ap, sym, ◌∙◌, String, Bool, ◌⊎◌, inl, inr, List, [], ◌∷◌,
  length, if◌then◌else◌, ltb, get_elem?, All, Bool-cases, arith,
}
use semaforo.Network.Graph.{or_else}
use semaforo.Coordination.GraphModel.Heap.{Any}
use semaforo.Vision.Harness.{max_count, dir_to_cameras, max_over, dir_counts}
use semaforo.Vision.Harness.Cameras.{sees, indices, map_cameras_lem}

-- The counts of the cameras whose direction passes the test.
abbrev pub seen : (String → Bool) → List String → List ℕ → List ℕ
seen p [] counts = []
seen p (d ∷ ds) [] = []
seen p (d ∷ ds) (c ∷ cs) = if p d then c ∷ seen p ds cs else seen p ds cs

abbrev largest_from : ℕ → List ℕ → ℕ
largest_from acc [] = acc
largest_from acc (c ∷ cs) = largest_from (max_count acc c) cs

-- What lies past the counts of the cameras counts as nothing.
beyond :
    (counts : List ℕ) (i acc : ℕ)
    → (if ltb i (length counts) then max_count acc (or_else (get_elem? counts i) 0) else acc)
      ≡ max_count acc (or_else (get_elem? counts i) 0)
beyond [] i acc = ground arith
beyond (c ∷ cs) zero acc = ground arith
beyond (c ∷ cs) (suc i) acc = ground (arith, beyond cs i acc)

seen-nil : (p : String → Bool) (ds : List String) → seen p ds [] ≡ []
seen-nil p [] = refl
seen-nil p (d ∷ ds) = refl

add-zero : (k : ℕ) → k + 0 ≡ k
add-zero k = omega arith

zero-add : (k : ℕ) → 0 + k ≡ k
zero-add k = omega arith

max_count-zero : (a : ℕ) → max_count a 0 ≡ a
max_count-zero a = ground arith

shift : (k j : ℕ) → suc k + j ≡ k + suc j
shift k j = omega arith

module _ (counts : List ℕ) where
  -- A camera whose count is `c`.
  max_over-cons :
      (i acc c : ℕ) (is : List ℕ)
      → or_else (get_elem? counts i) 0 ≡ c
      → max_over counts acc (i ∷ is) ≡ max_over counts (max_count acc c) is
  unfolding max_over
  max_over-cons i acc c is e =
      ap (λ a. max_over counts a is) (beyond counts i acc ∙ ap (max_count acc) e)

  -- From the `k`-th camera on, the counts are `cs`.
  abbrev IsRest : ℕ → List ℕ → Type 0
  IsRest k cs = (j : ℕ) → or_else (get_elem? counts (k + j)) 0 ≡ or_else (get_elem? cs j) 0

  IsRest-head :
      (k : ℕ) (cs : List ℕ)
      → IsRest k cs
      → or_else (get_elem? counts k) 0 ≡ or_else (get_elem? cs 0) 0
  IsRest-head k cs h = ap (λ n. or_else (get_elem? counts n) 0) (sym (add-zero k)) ∙ h 0

  IsRest-tail : (k c : ℕ) (cs : List ℕ) → IsRest k (c ∷ cs) → IsRest (suc k) cs
  IsRest-tail k c cs h j = ap (λ n. or_else (get_elem? counts n) 0) (shift k j) ∙ h (suc j)

  IsRest-nil : (k : ℕ) → IsRest k [] → IsRest (suc k) []
  IsRest-nil k h j = ap (λ n. or_else (get_elem? counts n) 0) (shift k j) ∙ h (suc j)

  max_over-seen :
      (p : String → Bool) (k acc : ℕ) (ds : List String) (cs : List ℕ)
      → IsRest k cs
      → max_over counts acc (indices p k ds) ≡ largest_from acc (seen p ds cs)
  unfolding max_over
  max_over-seen p k acc [] cs h = refl
  max_over-seen p k acc (d ∷ ds) [] h =
      let next =
        max_over-seen p (suc k) acc ds [] (IsRest-nil k h)
        ∙ ap (largest_from acc) (seen-nil p ds) in
      let head : or_else (get_elem? counts k) 0 ≡ 0 = IsRest-head k [] h in
      elim (Bool-cases (p d)) [
        | inl e ↦ rw e (
            max_over-cons k acc 0 (indices p (suc k) ds) head
            ∙ ap (λ a. max_over counts a (indices p (suc k) ds)) (max_count-zero acc)
            ∙ next)
        | inr e ↦ rw e next
      ]
  max_over-seen p k acc (d ∷ ds) (c ∷ cs) h =
      let rest = IsRest-tail k c cs h in
      elim (Bool-cases (p d)) [
        | inl e ↦ rw e (
            max_over-cons k acc c (indices p (suc k) ds) (IsRest-head k (c ∷ cs) h)
            ∙ max_over-seen p (suc k) (max_count acc c) ds cs rest)
        | inr e ↦ rw e (max_over-seen p (suc k) acc ds cs rest)
      ]

-- The greatest of some numbers, or 0 if there are none.
abbrev pub IsLargest : ℕ → List ℕ → Type 0
IsLargest x cs = All (λ c. c ≤ x) cs × ((x ≡ 0) ⊎ Any (λ c. c ≡ x) cs)

largest_from-IsLargest :
    (acc : ℕ) (cs : List ℕ)
    → let x = largest_from acc cs in
      (acc ≤ x) × All (λ c. c ≤ x) cs × ((x ≡ acc) ⊎ Any (λ c. c ≡ x) cs)
largest_from-IsLargest acc [] = (omega arith, tt, inl refl)
largest_from-IsLargest acc (c ∷ cs) =
    let (low, above, one) = largest_from-IsLargest (max_count acc c) cs in
    (
      ground arith,
      (ground arith, above),
      elim one [
        | inl e ↦ elim (Bool-cases (ltb acc c)) [
          | inl h ↦ let now : max_count acc c ≡ c = rw h refl in inr (inl (sym (e ∙ now)))
          | inr h ↦ let now : max_count acc c ≡ acc = rw h refl in inl (e ∙ now)
        ]
        | inr k ↦ inr (inr k)
      ],
    )

-- The count of each direction is the greatest among the cameras that see it, alone or with its axis;
-- a direction that no camera sees has 0.
pub dir_counts-IsLargest :
    (upper : String → String) (directions : List String) (counts : List ℕ)
    → let d = dir_counts (dir_to_cameras upper directions) counts in
      let by : String → String → List ℕ =
        λ one axis. seen (λ s. sees one axis (upper s)) directions counts in
      IsLargest d.north (by "N" "NS")
      × IsLargest d.east (by "E" "EW")
      × IsLargest d.south (by "S" "NS")
      × IsLargest d.west (by "W" "EW")
unfolding dir_counts dir_to_cameras
dir_counts-IsLargest upper directions counts =
    let one = λ (p : String → Bool).
      subst (λ x. IsLargest x (seen p directions counts))
        (sym (
          max_over-seen counts p 0 0 directions counts
            (λ j. ap (λ n. or_else (get_elem? counts n) 0) (zero-add j))))
        (
          (largest_from-IsLargest 0 (seen p directions counts)).1,
          (largest_from-IsLargest 0 (seen p directions counts)).2,
        ) in
    rw
      (map_cameras_lem upper 0 directions (record { north = []; east = []; south = []; west = [] }))
      (one _, one _, one _, one _)
