-- ===== src/Vision/Harness/Log.antt =====
-- The lines of the decision log.
use mathlib.Core.Path.{subst}
use semaforo.Prelude.{
  ℕ, zero, suc, ◌+◌, ◌-◌, ◌≤◌, ◌≡◌, refl, ap, ◌∙◌, String, true, ◌⊎◌, inl, inr, Option, none, some,
  List, [], ◌∷◌, ◌++◌, map, ◌==◌, get_elem?, pos, if_ind, Bool-cases, Option-cases, arith,
}
use semaforo.Float.{Float, clip01}
use semaforo.Network.Policy.{phase_by_action}
use semaforo.Vision.{ObservationBuilder, set_phase, build, same_phase}
use semaforo.Vision.Harness.{
  Decision, Harness, Round, Options, write_line, decide_action, decision_of, follow, decide_frame,
  counts_of,
}

module _ {W : Type 0} ⦃f : Float W⦄ where
  -- The observation shows green for `phase`, and for no other.
  shows_phase :
      (b : ObservationBuilder W) (now : W) (n e s w p : ℕ) (g : W → W)
      → b.current_phase ≡ pos p
      → p ≤ 1
      → (get_elem? (map g (build b now n e s w)) (8 + p) ≡ some (g (clip01 (f.ratio 1 1))))
        × (get_elem? (map g (build b now n e s w)) (9 - p) ≡ some (g (clip01 (f.ratio 0 1))))
  unfolding build
  shows_phase b now n e s w zero g h k = rw h (refl, refl)
  shows_phase b now n e s w (suc zero) g h k = rw h (refl, refl)
  shows_phase b now n e s w (suc (suc p)) g h k = absurd (omega arith)

  argmax_clamped :
      (session : List W → Option (List W)) (obs logits : List W) (a : ℕ)
      → decide_action session obs ≡ some (a, logits)
      → a ≤ 1
  unfolding decide_action
  argmax_clamped session obs logits a h = ground arith

  set_phase_lem :
      (b : ObservationBuilder W) (a c : ℕ) (t : W)
      → b.current_phase ≡ pos c
      → (set_phase b (pos a) t).current_phase ≡ pos a
  unfolding set_phase
  set_phase_lem b a c t h = elim (Bool-cases (same_phase (pos a) b.current_phase)) [
    | inl e ↦
        let e' : same_phase (pos a) (pos c) ≡ true = rw h at e in
        let same : c ≡ a = ground arith in rw e (h ∙ ap pos same)
    | inr e ↦ rw e refl
  ]

abbrev pub IsNamed : ℕ → Option String → Type 0
IsNamed action phase =
    ((action ≡ 0) × (phase ≡ some "GREEN_NS")) ⊎ ((action ≡ 1) × (phase ≡ some "GREEN_EW"))

module _ {W F D : Type 0} ⦃f : Float W⦄ (o : Options W F D) where
  -- A line at the frame `at`, decided on an observation that shows green for the phase `p` only.
  abbrev pub IsDecision : ℕ → ℕ → Decision W → Type 0
  IsDecision p at line =
      (line.frame ≡ at)
      × IsNamed line.action line.recommended_phase
      × (get_elem? line.obs (8 + p) ≡ some (o.round (clip01 (f.ratio 1 1)) 5))
      × (get_elem? line.obs (9 - p) ≡ some (o.round (clip01 (f.ratio 0 1)) 5))

  -- From the phase `p` and the frame `at` on, a line for each interval, each decided under the phase
  -- that the line before it recommends; then the phase is `p'` and the next line is due at `at'`.
  abbrev pub Follows : ℕ → ℕ → List (Decision W) → ℕ → ℕ → Type 0
  Follows p at [] p' at' = (p ≡ p') × (at ≡ at')
  Follows p at (line ∷ lines) p' at' =
      IsDecision p at line × Follows line.action (at + o.decision_interval) lines p' at'

  Follows-append_one :
      (p at p' at' : ℕ) (lines : List (Decision W)) (line : Decision W)
      → Follows p at lines p' at'
      → IsDecision p' at' line
      → Follows p at (lines ++ line ∷ []) line.action (at' + o.decision_interval)
  Follows-append_one p at p' at' [] line (e, e') h = rw (e, e') (h, (refl, refl))
  Follows-append_one p at p' at' (x ∷ xs) line (k, ks) h =
      (k, Follows-append_one x.action (at + o.decision_interval) p' at' xs line ks h)

  -- A state of the harness with a log, the next line of which is due at `at`.
  pub record IsRollout (at : ℕ) (lines : List (Decision W)) (h : Harness W) : Type 0 where
    pub logged : h.log ≡ some lines
    pub follows : Follows 0 0 lines h.current_phase at
    pub builder : h.obs_builder.current_phase ≡ pos h.current_phase
    pub phase : h.current_phase ≤ 1

  follow-IsRollout :
      (r : Round W F) (h : Harness W) (at : ℕ) (lines : List (Decision W)) (obs logits : List W)
      (a : ℕ)
      → IsRollout at lines h
      → a ≤ 1
      → IsDecision h.current_phase at (decision_of o r h obs a logits)
      → IsRollout
          (at + o.decision_interval)
          (lines ++ decision_of o r h obs a logits ∷ [])
          (follow o r obs (a, logits) h)
  unfolding follow decision_of
  follow-IsRollout r h at lines obs logits a inv small line =
      let next =
        Follows-append_one 0 0 h.current_phase at lines (decision_of o r h obs a logits) inv.follows
          line in
      elim (Bool-cases (a == h.current_phase)) [
        | inl e ↦
            let same : a ≡ h.current_phase = ground arith in
            rw e (record {
              logged = ap (λ l. write_line l (decision_of o r h obs a logits)) inv.logged;
              follows =
                  subst
                    (λ p.
                      Follows 0 0 (lines ++ decision_of o r h obs a logits ∷ []) p
                        (at + o.decision_interval))
                    same next;
              builder = inv.builder;
              phase = inv.phase;
            })
        | inr e ↦ rw e (record {
          logged = ap (λ l. write_line l (decision_of o r h obs a logits)) inv.logged;
          follows = next;
          builder = set_phase_lem h.obs_builder a h.current_phase r.phase_time inv.builder;
          phase = small;
        })
      ]

  phase_by_action-IsNamed : (a : ℕ) → a ≤ 1 → IsNamed a (phase_by_action a)
  phase_by_action-IsNamed zero h = inl (refl, refl)
  phase_by_action-IsNamed (suc zero) h = inr (refl, refl)
  phase_by_action-IsNamed (suc (suc a)) h = absurd (omega arith)

  decision_of-IsDecision :
      (r : Round W F) (h : Harness W) (a : ℕ) (logits : List W) (n e s w : ℕ)
      → h.obs_builder.current_phase ≡ pos h.current_phase
      → h.current_phase ≤ 1
      → a ≤ 1
      → IsDecision h.current_phase h.frame_idx
          (decision_of o r h (build h.obs_builder r.build_time n e s w) a logits)
  unfolding decision_of
  decision_of-IsDecision r h a logits n e s w same low small =
      let (green, red) =
        shows_phase h.obs_builder r.build_time n e s w h.current_phase (λ x. o.round x 5) same
          low in
      (refl, phase_by_action-IsNamed a small, green, red)

  follow_keeps_frame :
      (r : Round W F) (h : Harness W) (obs logits : List W) (a : ℕ)
      → (follow o r obs (a, logits) h).frame_idx ≡ h.frame_idx
  unfolding follow
  follow_keeps_frame r h obs logits a =
      if_ind {A = Harness W} (λ x. x.frame_idx ≡ h.frame_idx) (a == h.current_phase) refl refl

  pub decide_frame-IsRollout :
      (r : Round W F) (h h' : Harness W) (at : ℕ) (lines : List (Decision W))
      → IsRollout at lines h
      → h.frame_idx ≡ at
      → decide_frame o r h ≡ some h'
      → (lines' : List (Decision W)) × IsRollout (at + o.decision_interval) lines' h'
        × (h'.frame_idx ≡ h.frame_idx)
  unfolding decide_frame
  decide_frame-IsRollout r h h' at lines inv now k =
      let c = counts_of o r in
      let obs = build h.obs_builder r.build_time c.north c.east c.south c.west in
      elim (Option-cases (decide_action o.session obs)) [
        | inl e ↦ let absurd : none ≡ some h' = rw e at k in cc
        | inr ((a, logits), e) ↦
            let small = argmax_clamped o.session obs logits a e in
            let found : some (follow o r obs (a, logits) h) ≡ some h' = rw e at k in
            let same : follow o r obs (a, logits) h ≡ h' = cc in
            let line =
              decision_of-IsDecision r h a logits c.north c.east c.south c.west inv.builder
                inv.phase small in
            subst
              (λ x.
                (lines' : List (Decision W)) × IsRollout (at + o.decision_interval) lines' x
                × (x.frame_idx ≡ h.frame_idx))
              same
              (
                lines ++ decision_of o r h obs a logits ∷ [],
                follow-IsRollout r h at lines obs logits a inv small (
                    subst (λ k. IsDecision h.current_phase k (decision_of o r h obs a logits)) now
                      line),
                follow_keeps_frame r h obs logits a,
              )
      ]

  pub next_frame :
      (at : ℕ) (lines : List (Decision W)) (h : Harness W)
      → IsRollout at lines h
      → IsRollout at lines (record h { frame_idx = h.frame_idx + 1 })
  next_frame at lines h inv = record {
    logged = inv.logged;
    follows = inv.follows;
    builder = inv.builder;
    phase = inv.phase;
  }
