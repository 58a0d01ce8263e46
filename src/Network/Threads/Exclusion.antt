-- ===== src/Network/Threads/Exclusion.antt =====
-- The lock: one thread at a time is between the read of the counter and the end of its increment.
use mathlib.Core.Path.{subst}
use semaforo.Prelude.{
  ℕ, ◌≡◌, refl, Bool, true, false, some, List, [], ◌∷◌, arith, ◌==◌, Bool-cases, Option-cases, inl,
  inr, if_ind, if_ind_eq, ◌+◌,
}
use semaforo.Network.Threads.{
  Pc, idle, entered, got, loaded, stored, drawn, Machine, init, put_at, move, thread_step, call,
  acquire, publish,
}

abbrev pub inside : Pc → Bool
inside idle = false
inside (drawn v) = false
inside _ = true

-- A thread with the lock has seen the counter's present value.
abbrev pub IsFresh : ℕ → Pc → Type 0
IsFresh next (got v) = v ≡ next
IsFresh next (loaded v n) = (v ≡ next) × (n ≡ next)
IsFresh next _ = Unit

abbrev pub IsBusy {ℓ} : {P : Type ℓ} → Pc → List P → Type 0
IsBusy idle ps = Unit
IsBusy pc [] = ⊥
IsBusy pc (p ∷ ps) = Unit

pub record IsExclusive {ℓ} {P : Type ℓ} (m : Machine P) : Type 0 where
  pub owner : (i : ℕ) → inside (m.pc i) ≡ true → m.lock ≡ some i
  pub fresh : (i : ℕ) → IsFresh m.next (m.pc i)
  pub busy : (i : ℕ) → IsBusy (m.pc i) (m.todo i)

has_work {ℓ} : {P : Type ℓ} (p q : Pc) (ps : List P) → inside p ≡ true → IsBusy p ps → IsBusy q ps
has_work p idle ps h k = tt
has_work idle entered [] h k = cc
has_work idle (got v) [] h k = cc
has_work idle (loaded v n) [] h k = cc
has_work idle (stored v) [] h k = cc
has_work idle (drawn v) [] h k = cc
has_work entered q [] h k = elim k [ ]
has_work (got v) q [] h k = elim k [ ]
has_work (loaded v n) q [] h k = elim k [ ]
has_work (stored v) q [] h k = elim k [ ]
has_work (drawn v) q [] h k = elim k [ ]
has_work p entered (x ∷ xs) h k = tt
has_work p (got v) (x ∷ xs) h k = tt
has_work p (loaded v n) (x ∷ xs) h k = tt
has_work p (stored v) (x ∷ xs) h k = tt
has_work p (drawn v) (x ∷ xs) h k = tt

module _ {ℓ} {P : Type ℓ} (m : Machine P) (inv : IsExclusive m) (i : ℕ) where
  open inv use {owner, fresh, busy}

  call-owner :
      (ps : List P) (j : ℕ) → inside ((call i ps m).pc j) ≡ true → (call i ps m).lock ≡ some j
  unfolding call acquire
  call-owner [] j h = owner j h
  call-owner (p ∷ ps) j h = ground (arith, owner j)

  publish-owner :
      (v : ℕ) (ps : List P) (j : ℕ)
      → inside ((publish i v ps m).pc j) ≡ true
      → (publish i v ps m).lock ≡ some j
  unfolding publish
  publish-owner v [] j h = owner j h
  publish-owner v (p ∷ ps) j h = ground (arith, owner j)

  move-owner :
      (p : Pc)
      → m.pc i ≡ p
      → (j : ℕ) → inside ((move i p m).pc j) ≡ true
      → (move i p m).lock ≡ some j
  unfolding move
  move-owner idle e j h = call-owner (m.todo i) j h
  move-owner entered e j h = ground (arith, owner i, owner j)
  move-owner (got v) e j h = ground (arith, owner i, owner j)
  move-owner (loaded v n) e j h = ground (arith, owner i, owner j)
  move-owner (stored v) e j h = ground (arith, owner i, owner j)
  move-owner (drawn v) e j h = publish-owner v (m.todo i) j h

  outside-IsFresh : (n : ℕ) (p : Pc) → inside p ≡ false → IsFresh n p
  outside-IsFresh n idle h = tt
  outside-IsFresh n (drawn v) h = tt
  outside-IsFresh n entered h = cc
  outside-IsFresh n (got v) h = cc
  outside-IsFresh n (loaded v k) h = cc
  outside-IsFresh n (stored v) h = cc

  -- The thread with the lock is alone, so the others keep what they have seen.
  alone : (n j : ℕ) → inside (m.pc i) ≡ true → (j == i) ≡ false → IsFresh n (m.pc j)
  alone n j h ne = elim (Bool-cases (inside (m.pc j))) [
    | inl k ↦ let absurd : ⊥ = ground (arith, owner i h, owner j k) in elim absurd [ ]
    | inr k ↦ outside-IsFresh n (m.pc j) k
  ]

  call-fresh : (ps : List P) (j : ℕ) → IsFresh (call i ps m).next ((call i ps m).pc j)
  unfolding call acquire
  call-fresh [] j = fresh j
  call-fresh (p ∷ ps) j = elim (Option-cases m.lock) [
    | inl e ↦ rw (e, acquire) (if_ind (IsFresh m.next) (j == i) tt (fresh j))
    | inr (k, e) ↦ rw (e, acquire) (fresh j)
  ]

  publish-fresh :
      (v : ℕ) (ps : List P) (j : ℕ) → IsFresh (publish i v ps m).next ((publish i v ps m).pc j)
  unfolding publish
  publish-fresh v [] j = fresh j
  publish-fresh v (p ∷ ps) j = if_ind (IsFresh m.next) (j == i) tt (fresh j)

  move-fresh : (p : Pc) → m.pc i ≡ p → (j : ℕ) → IsFresh (move i p m).next ((move i p m).pc j)
  unfolding move
  move-fresh idle e j = call-fresh (m.todo i) j
  move-fresh entered e j = if_ind (IsFresh m.next) (j == i) refl (fresh j)
  move-fresh (got v) e j =
      let seen : v ≡ m.next = subst (IsFresh m.next) e (fresh i) in
      if_ind (IsFresh m.next) (j == i) (seen, refl) (fresh j)
  move-fresh (loaded v n) e j =
      if_ind_eq (IsFresh (n + 1)) (j == i) (λ _. tt) (alone (n + 1) j (rw e refl))
  move-fresh (stored v) e j = if_ind (IsFresh m.next) (j == i) tt (fresh j)
  move-fresh (drawn v) e j = publish-fresh v (m.todo i) j

  -- A thread that goes on has its payload still to publish.
  go_on :
      (p q : Pc) → m.pc i ≡ p → inside p ≡ true → (j : ℕ) → IsBusy (put_at m.pc i q j) (m.todo j)
  go_on p q e h j =
      if_ind_eq (λ r. IsBusy r (m.todo j)) (j == i)
        (λ s.
          let same : j ≡ i = ground arith in
          rw same (has_work p q (m.todo i) h (subst (λ r. IsBusy r (m.todo i)) e (busy i))))
        (λ _. busy j)

  call-busy :
      (ps : List P) → m.todo i ≡ ps → (j : ℕ) → IsBusy ((call i ps m).pc j) ((call i ps m).todo j)
  unfolding call acquire
  call-busy [] e j = busy j
  call-busy (p ∷ ps) e j = elim (Option-cases m.lock) [
    | inl k ↦
        rw (k, acquire)
          (if_ind_eq (λ r. IsBusy r (m.todo j)) (j == i)
            (λ s. let same : j ≡ i = ground arith in rw (same, e) tt) (λ _. busy j))
    | inr (k, f) ↦ rw (f, acquire) (busy j)
  ]

  publish-busy :
      (v : ℕ) (ps : List P) (j : ℕ) → IsBusy ((publish i v ps m).pc j) ((publish i v ps m).todo j)
  unfolding publish
  publish-busy v [] j = busy j
  publish-busy v (p ∷ ps) j = elim (Bool-cases (j == i)) [ inl e ↦ rw e tt | inr e ↦ rw e (busy j) ]

  move-busy : (p : Pc) → m.pc i ≡ p → (j : ℕ) → IsBusy ((move i p m).pc j) ((move i p m).todo j)
  unfolding move
  move-busy idle e j = call-busy (m.todo i) refl j
  move-busy entered e j = go_on entered _ e refl j
  move-busy (got v) e j = go_on (got v) _ e refl j
  move-busy (loaded v n) e j = go_on (loaded v n) _ e refl j
  move-busy (stored v) e j = go_on (stored v) _ e refl j
  move-busy (drawn v) e j = publish-busy v (m.todo i) j

pub thread_step-IsExclusive {ℓ} :
    {P : Type ℓ} (i : ℕ) (m : Machine P) → IsExclusive m → IsExclusive (thread_step i m)
unfolding thread_step
thread_step-IsExclusive i m inv = record {
  owner = move-owner m inv i (m.pc i) refl;
  fresh = move-fresh m inv i (m.pc i) refl;
  busy = move-busy m inv i (m.pc i) refl;
}

pub init-IsExclusive {ℓ} :
    {P : Type ℓ} (start : ℕ) (todo : ℕ → List P) → IsExclusive (init start todo)
unfolding init
init-IsExclusive start todo = record { owner = λ i h. cc; fresh = λ i. tt; busy = λ i. tt }
