-- ===== src/Agents/FixedTime/Cycle.antt =====
-- Runs of the fixed-time controller: its invariant, and one full cycle of decisions.
use semaforo.Prelude.{
  ℕ, zero, suc, ◌+◌, ◌-◌, ◌*◌, ◌/◌, ◌%◌, ◌≤◌, ◌<◌, ◌≡◌, refl, List, [], ◌∷◌, ◌++◌, arith, length,
  get_or, All, ap, replicate, length-append, sym, ◌∙◌,
}
use Prim.Native.Nat.add
use mathlib.Core.List.{append_assoc}
use semaforo.Agents.FixedTime.{FixedTimeBaseline, decide, reset}

-- The actions of the next `n` decisions, and the controller after them.
unfoldable pub actions : ℕ → FixedTimeBaseline → List ℕ
actions zero c = []
actions (suc n) c = (decide c).1 ∷ actions n (decide c).0

unfoldable pub after : ℕ → FixedTimeBaseline → FixedTimeBaseline
after zero c = c
after (suc n) c = after n (decide c).0

-- The phase is one of the cycle, and its time is not yet up.
pub record IsValid (c : FixedTimeBaseline) : Type 0 where
  pub positive : All (λ d. 0 < d) c.phase_durations
  pub phase_lt : c.current_phase < length c.phase_durations
  pub elapsed_lt : c.elapsed < get_or c.phase_durations c.current_phase 0

get_or-pos : (ds : List ℕ) (i : ℕ) → All (λ d. 0 < d) ds → i < length ds → 0 < get_or ds i 0
get_or-pos [] i h k = elim k [ ]
get_or-pos (d ∷ ds) zero h k = h.0
get_or-pos (d ∷ ds) (suc i) h k = get_or-pos ds i h.1 (omega arith)

-- Every decision keeps the controller well formed.
pub decide-IsValid : (c : FixedTimeBaseline) → IsValid c → IsValid (decide c).0
unfolding decide
decide-IsValid c v = ground (
  arith,
  get_or-pos c.phase_durations ((c.current_phase + 1) % length c.phase_durations) v.positive,
)

after-IsValid : (n : ℕ) (c : FixedTimeBaseline) → IsValid c → IsValid (after n c)
unfolding after
after-IsValid zero c v = v
after-IsValid (suc n) c v = after-IsValid n (decide c).0 (decide-IsValid c v)

-- The number of decisions that a phase of `d` seconds is held for: d / delta, rounded up.
unfoldable pub hold : ℕ → ℕ → ℕ
hold delta d = suc ((d - 1) / delta)

at_phase : List ℕ → ℕ → ℕ → ℕ → FixedTimeBaseline
at_phase ds delta p e = record {
  phase_durations = ds;
  delta_time = delta;
  current_phase = p;
  elapsed = e;
}

-- While time is left the phase stays; the decision that uses it up moves on.
hold_phase :
    (ds : List ℕ) (delta p e k : ℕ)
    → e + k * delta < get_or ds p 0
    → get_or ds p 0 ≤ e + suc k * delta
    → (actions (suc k) (at_phase ds delta p e) ≡ replicate (suc k) p)
      × (after (suc k) (at_phase ds delta p e) ≡ at_phase ds delta ((p + 1) % length ds) 0)
unfolding actions after decide at_phase
hold_phase ds delta p e zero h l = ground arith
hold_phase ds delta p e (suc k) h l =
    ground (arith, hold_phase ds delta p (e + delta) k (omega arith) (omega arith))

hold_phase_full :
    (ds : List ℕ) (delta p d : ℕ)
    → 0 < delta
    → 0 < d
    → get_or ds p 0 ≡ d
    → (actions (hold delta d) (at_phase ds delta p 0) ≡ replicate (hold delta d) p)
      × (after (hold delta d) (at_phase ds delta p 0) ≡ at_phase ds delta ((p + 1) % length ds) 0)
unfolding hold
hold_phase_full ds delta p d h k e =
    hold_phase ds delta p 0 ((d - 1) / delta) (grind arith) (grind arith)

actions-add :
    (m n : ℕ) (c : FixedTimeBaseline) → actions (m + n) c ≡ actions m c ++ actions n (after m c)
unfolding actions after
actions-add zero n c = rw (add.zero n)
actions-add (suc m) n c =
    rw (add.suc m n) (ap (λ r. (decide c).1 ∷ r) (actions-add m n (decide c).0))

after-add : (m n : ℕ) (c : FixedTimeBaseline) → after (m + n) c ≡ after n (after m c)
unfolding after
after-add zero n c = rw (add.zero n)
after-add (suc m) n c = rw (add.suc m n) (after-add m n (decide c).0)

-- The actions of one cycle over the phases `i`, `i + 1`, … with durations `ds`.
unfoldable pub schedule : ℕ → ℕ → List ℕ → List ℕ
schedule delta i [] = []
schedule delta i (d ∷ ds) = replicate (hold delta d) i ++ schedule delta (suc i) ds

-- How many decisions these are.
unfoldable pub decisions : ℕ → List ℕ → ℕ
decisions delta [] = 0
decisions delta (d ∷ ds) = hold delta d + decisions delta ds

get_or-append : (pre post : List ℕ) (d : ℕ) → get_or (pre ++ d ∷ post) (length pre) 0 ≡ d
get_or-append [] post d = refl
get_or-append (x ∷ pre) post d = get_or-append pre post d

join_runs :
    (m n : ℕ) (c : FixedTimeBaseline) {c1 c2 : FixedTimeBaseline} {xs ys : List ℕ}
    → actions m c ≡ xs
    → after m c ≡ c1
    → actions n c1 ≡ ys
    → after n c1 ≡ c2
    → (actions (m + n) c ≡ xs ++ ys) × (after (m + n) c ≡ c2)
join_runs m n c a b a' b' = (rw (actions-add m n c, a, b, a'), rw (after-add m n c, b, b'))

next_phase-last : (p n : ℕ) → n ≡ suc p → (p + 1) % n ≡ 0
next_phase-last p n h = grind arith

next_phase-inner : (p n : ℕ) → suc p < n → (p + 1) % n ≡ suc p
next_phase-inner p n h = grind arith

-- From the start of the phase `p` the rest of the cycle is the schedule of the durations from `p`.
walk :
    (ds pre post : List ℕ) (d delta p : ℕ)
    → 0 < delta
    → All (λ d. 0 < d) (d ∷ post)
    → ds ≡ pre ++ d ∷ post
    → p ≡ length pre
    → (actions (decisions delta (d ∷ post)) (at_phase ds delta p 0) ≡ schedule delta p (d ∷ post))
      × (after (decisions delta (d ∷ post)) (at_phase ds delta p 0) ≡ at_phase ds delta 0 0)
unfolding schedule decisions
walk ds pre [] d delta p h k e q =
    let (acts, next) = hold_phase_full ds delta p d h k.0 (rw (e, q) (get_or-append pre [] d)) in
    let wrap : (p + 1) % length ds ≡ 0 =
      next_phase-last p (length ds) (rw (e, q) (omega (arith, length-append {0} pre (d ∷ [])))) in
    join_runs (hold delta d) 0 (at_phase ds delta p 0) acts
      (next ∙ ap (λ j. at_phase ds delta j 0) wrap) (unfold actions in refl) (unfold after in refl)
walk ds pre (d' ∷ post) d delta p h k e q =
    let (acts, next) =
      hold_phase_full ds delta p d h k.0 (rw (e, q) (get_or-append pre (d' ∷ post) d)) in
    let on : (p + 1) % length ds ≡ suc p =
      next_phase-inner p (length ds)
        (rw (e, q) (omega (arith, length-append {0} pre (d ∷ d' ∷ post)))) in
    let (acts', next') =
      walk ds (pre ++ d ∷ []) post d' delta (suc p) h k.1
        (e ∙ sym (append_assoc pre (d ∷ []) (d' ∷ post)))
        (omega (arith, length-append {0} pre (d ∷ []))) in
    join_runs (hold delta d) (decisions delta (d' ∷ post)) (at_phase ds delta p 0) acts
      (next ∙ ap (λ j. at_phase ds delta j 0) on) acts' next'

cycle_from_start :
    (ds : List ℕ) (delta : ℕ)
    → 0 < delta
    → 0 < length ds
    → All (λ d. 0 < d) ds
    → (actions (decisions delta ds) (at_phase ds delta 0 0) ≡ schedule delta 0 ds)
      × (after (decisions delta ds) (at_phase ds delta 0 0) ≡ at_phase ds delta 0 0)
cycle_from_start [] delta h k p = elim k [ ]
cycle_from_start (d ∷ ds) delta h k p = walk (d ∷ ds) [] ds d delta 0 h p refl refl

-- After `reset`, with positive durations and a positive decision interval, the controller plays each
-- phase in order, phase `i` for `duration / delta_time` decisions rounded up, and is then back in
-- the state that `reset` left.
pub actions-reset :
    (c : FixedTimeBaseline)
    → 0 < c.delta_time
    → 0 < length c.phase_durations
    → All (λ d. 0 < d) c.phase_durations
    → let n = decisions c.delta_time c.phase_durations in
      (actions n (reset c) ≡ schedule c.delta_time 0 c.phase_durations)
      × (after n (reset c) ≡ reset c)
unfolding reset at_phase
actions-reset c h k p = cycle_from_start c.phase_durations c.delta_time h k p
