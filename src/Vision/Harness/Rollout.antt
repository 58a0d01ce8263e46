-- ===== src/Vision/Harness/Rollout.antt =====
-- The main loop of the harness: the policy is followed as if it were in control.
use mathlib.Core.Path.{subst}
use semaforo.Prelude.{
  ℕ, ◌+◌, ◌%◌, ◌≤◌, ◌<◌, ◌≡◌, refl, true, false, ◌⊎◌, inl, inr, some, List, [], ◌∷◌, ◌==◌, ltb, leb,
  ◌&&◌, ◌||◌, if_ind, if_ind_eq, Option-cases, arith,
}
use semaforo.Float.{Float}
use semaforo.Vision.Harness.{
  Decision, Harness, Round, Options, Turn, going, ended, raised, decide_frame, finish, play,
  play_all, start, all_done,
}
use semaforo.Vision.Harness.Log.{IsRollout, decide_frame-IsRollout, next_frame}

-- The next multiple at most `d` away.
same_multiple : (a b d : ℕ) → 0 < d → a % d ≡ 0 → b % d ≡ 0 → a ≤ b → b < a + d → a ≡ b
same_multiple a b d pos_d ha hb le lt = grind arith

next_multiple : (a d : ℕ) → 0 < d → a % d ≡ 0 → (a + d) % d ≡ 0
next_multiple a d pos_d h = grind arith

module _ {W F D : Type 0} ⦃f : Float W⦄ (o : Options W F D) where
  -- A state between two rounds: no frame at which a decision is due has passed.
  pub record IsGoing (at : ℕ) (lines : List (Decision W)) (h : Harness W) : Type 0 where
    pub rollout : IsRollout o at lines h
    pub multiple : at % o.decision_interval ≡ 0
    pub reached : h.frame_idx ≤ at
    pub close : at < h.frame_idx + o.decision_interval

  pub record IsDone (at : ℕ) (lines : List (Decision W)) (h : Harness W) : Type 0 where
    pub rollout : IsRollout o at lines h
    pub reached : h.frame_idx ≤ at
    pub close : at ≤ h.frame_idx + o.decision_interval

  abbrev Ends : Turn W → Type 0
  Ends (going h) = (at : ℕ) × (lines : List (Decision W)) × IsGoing at lines h
  Ends (ended h) = (at : ℕ) × (lines : List (Decision W)) × IsDone at lines h
  Ends (raised h) = (at : ℕ) × (lines : List (Decision W)) × IsDone at lines h

  Turn-cases :
      (t : Turn W)
      → ((h : Harness W) × (t ≡ going h))
        ⊎ (((h : Harness W) × (t ≡ ended h)) ⊎ ((h : Harness W) × (t ≡ raised h)))
  Turn-cases (going h) = inl (h, refl)
  Turn-cases (ended h) = inr (inl (h, refl))
  Turn-cases (raised h) = inr (inr (h, refl))

  going-IsDone :
      (at : ℕ) (lines : List (Decision W)) (h : Harness W) → IsGoing at lines h → IsDone at lines h
  going-IsDone at lines h g = record {
    rollout = g.rollout;
    reached = g.reached;
    close = omega (arith, g.close);
  }

  module _ (some_interval : 0 < o.decision_interval) where
    -- A round at which no decision is due.
    pass-Ends :
        (r : Round W F) (at : ℕ) (lines : List (Decision W)) (h : Harness W)
        → IsGoing at lines h
        → (h.frame_idx % o.decision_interval == 0) ≡ false
        → Ends (finish o r (some h) h)
    unfolding finish
    pass-Ends r at lines h g off =
        let not_due : h.frame_idx < at = ground (arith, g.multiple, g.reached) in
        if_ind Ends r.quit (at, lines, going-IsDone at lines h g)
          (
            at,
            lines,
            record {
              rollout = next_frame o at lines h g.rollout;
              multiple = g.multiple;
              reached = omega arith;
              close = omega (arith, g.close);
            },
          )

    -- A round at which one is.
    due-Ends :
        (r : Round W F) (at : ℕ) (lines : List (Decision W)) (h : Harness W)
        → IsGoing at lines h
        → (h.frame_idx % o.decision_interval == 0) ≡ true
        → Ends (finish o r (decide_frame o r h) h)
    unfolding finish
    due-Ends r at lines h g on =
        let due : h.frame_idx % o.decision_interval ≡ 0 = ground arith in
        let now : h.frame_idx ≡ at =
          same_multiple h.frame_idx at o.decision_interval some_interval due g.multiple g.reached
            g.close in
        elim (Option-cases (decide_frame o r h)) [
          | inl e ↦ rw e (at, lines, going-IsDone at lines h g)
          | inr (h', e) ↦
              let (lines', inv, kept) = decide_frame-IsRollout o r h h' at lines g.rollout now e in
              rw e (
                if_ind Ends r.quit
                  (
                    at + o.decision_interval,
                    lines',
                    record {
                      rollout = inv;
                      reached = omega (arith, kept);
                      close = omega (arith, kept);
                    },
                  )
                  (
                    at + o.decision_interval,
                    lines',
                    record {
                      rollout = next_frame o (at + o.decision_interval) lines' h' inv;
                      multiple = next_multiple at o.decision_interval some_interval g.multiple;
                      reached = omega (arith, kept);
                      close = omega (arith, kept);
                    },
                  ))
        ]

    play-Ends :
        (r : Round W F) (at : ℕ) (lines : List (Decision W)) (h : Harness W)
        → IsGoing at lines h
        → Ends (play o r h)
    unfolding play
    play-Ends r at lines h g =
        let done : Ends (ended h) = (at, lines, going-IsDone at lines h g) in
        if_ind Ends (all_done o r.frames || (ltb 0 o.max_frames && leb o.max_frames h.frame_idx))
          done
          (if_ind Ends (o.decision_interval == 0) done (
            if_ind_eq Ends (h.frame_idx % o.decision_interval == 0) (due-Ends r at lines h g)
              (pass-Ends r at lines h g)))

    play_all-Ends :
        (rs : List (Round W F)) (at : ℕ) (lines : List (Decision W)) (h : Harness W)
        → IsGoing at lines h
        → Ends (play_all o rs h)
    unfolding play_all
    play_all-Ends [] at lines h g = (at, lines, g)
    play_all-Ends (r ∷ rs) at lines h g =
        let now = play-Ends r at lines h g in
        elim (Turn-cases (play o r h)) [
          | inl (h', e) ↦
              let (at', lines', g') = subst Ends e now in
              rw (e, play_all) (play_all-Ends rs at' lines' h' g')
          | inr (inl (h', e)) ↦ rw (e, play_all) (subst Ends e now)
          | inr (inr (h', e)) ↦ rw (e, play_all) (subst Ends e now)
        ]

  start-IsGoing : (now : W) → 0 < o.decision_interval → IsGoing 0 [] (start true now)
  unfolding start
  start-IsGoing now h = record {
    rollout = record { logged = refl; follows = (refl, refl); builder = refl; phase = omega arith };
    multiple = omega arith;
    reached = omega arith;
    close = omega (arith, h);
  }

  abbrev pub last_state : Turn W → Harness W
  last_state (going h) = h
  last_state (ended h) = h
  last_state (raised h) = h

  Ends-IsDone :
      (t : Turn W)
      → Ends t
      → (at : ℕ) × (lines : List (Decision W)) × IsDone at lines (last_state t)
  Ends-IsDone (going h) (at, lines, g) = (at, lines, going-IsDone at lines h g)
  Ends-IsDone (ended h) e = e
  Ends-IsDone (raised h) e = e

  -- With a positive interval, wherever the program stops, also by an exception, the log has one line
  -- for each multiple of the interval up to the present frame, with an action of 0 or 1 and its
  -- phase's name; each was decided on an observation that shows green for the phase of the line
  -- before it (north-south for the first) and for no other of the two, and the last one's phase is
  -- the present one.
  pub play_all-IsRollout :
      (rounds : List (Round W F)) (now : W)
      → 0 < o.decision_interval
      → (at : ℕ) × (lines : List (Decision W)) × IsDone at lines
          (last_state (play_all o rounds (start true now)))
  play_all-IsRollout rounds now some_interval =
      Ends-IsDone (play_all o rounds (start true now))
        (play_all-Ends some_interval rounds 0 [] (start true now) (start-IsGoing now some_interval))
