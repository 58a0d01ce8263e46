-- ===== src/Vision/Harness.antt =====
-- brain/scripts/yolo_inference.py: the policy on real cameras, in shadow. What a camera gives and what
-- is detected on a frame are arguments, and so are the readings of the clocks.
pub mod Agree
pub mod Cameras
pub mod Counts
pub mod Log
pub mod Rollout
use semaforo.Prelude.{
  ℕ, zero, suc, ◌+◌, ◌%◌, String, Bool, true, false, ◌&&◌, ◌||◌, not, Option, none, some, List, [],
  ◌∷◌, ◌++◌, map, length, if◌then◌else◌, ◌==◌, leb, ltb, str_eq, get_elem?, ℤ, pos,
}
use semaforo.Float.{Float}
use semaforo.Network.Graph.{◌>>=◌, or_else}
use semaforo.Network.Policy.{obs_size, phase_by_action, argmax}
use semaforo.Vision.{ObservationBuilder, set_phase, build}

-- `dir_to_cameras`, and the counts per direction.
pub record Directions (A : Type 0) : Type 0 where
  pub north : A
  pub east : A
  pub south : A
  pub west : A

-- max(a, b), which keeps the first of two equal numbers
abbrev pub max_count : ℕ → ℕ → ℕ
max_count a b = if ltb a b then b else a

-- A camera under an unknown direction is skipped. `direction` is in upper case.
unfoldable pub add_camera : String → ℕ → Directions (List ℕ) → Directions (List ℕ)
add_camera direction i d =
    if str_eq direction "NS"
    then record d { north = d.north ++ i ∷ []; south = d.south ++ i ∷ [] }
    else if str_eq direction "EW"
    then record d { east = d.east ++ i ∷ []; west = d.west ++ i ∷ [] }
    else if str_eq direction "N"
    then record d { north = d.north ++ i ∷ [] }
    else if str_eq direction "E"
    then record d { east = d.east ++ i ∷ [] }
    else if str_eq direction "S"
    then record d { south = d.south ++ i ∷ [] }
    else if str_eq direction "W"
    then record d { west = d.west ++ i ∷ [] }
    else d

-- The loop over `enumerate(args.directions)`; `upper` is `str.upper`.
unfoldable pub map_cameras :
    (String → String) → ℕ → List String → Directions (List ℕ) → Directions (List ℕ)
unfolding add_camera
map_cameras upper i [] d = d
map_cameras upper i (direction ∷ directions) d =
    map_cameras upper (suc i) directions (add_camera (upper direction) i d)

unfoldable pub dir_to_cameras : (String → String) → List String → Directions (List ℕ)
unfolding map_cameras
dir_to_cameras upper directions =
    map_cameras upper 0 directions (record { north = []; east = []; south = []; west = [] })

-- The inner loop over the cameras of one direction.
unfoldable pub max_over : List ℕ → ℕ → List ℕ → ℕ
max_over counts acc [] = acc
max_over counts acc (ci ∷ cis) =
    max_over counts
      (if ltb ci (length counts) then max_count acc (or_else (get_elem? counts ci) 0) else acc) cis

unfoldable pub dir_counts : Directions (List ℕ) → List ℕ → Directions ℕ
unfolding max_over
dir_counts cameras counts = record {
  north = max_over counts 0 cameras.north;
  east = max_over counts 0 cameras.east;
  south = max_over counts 0 cameras.south;
  west = max_over counts 0 cameras.west;
}

-- One line of the decision log. `ground_truth_phase` is always null.
pub record Decision (W : Type 0) : Type 0 where
  pub ts : W
  pub iso : String
  pub frame : ℕ
  pub counts : Directions ℕ
  pub obs : List W
  pub logits : List W
  pub action : ℕ
  pub recommended_phase : Option String
  pub phase_elapsed_s : W
  pub infer_ms : W

-- `log` is none without `--log`.
pub record Harness (W : Type 0) : Type 0 where
  pub frame_idx : ℕ
  pub current_phase : ℕ
  pub obs_builder : ObservationBuilder W
  pub log : Option (List (Decision W))

-- One round of the main loop: what each camera reads, the clocks, and whether `q` was pressed in the
-- window.
pub record Round (W F : Type 0) : Type 0 where
  pub frames : List (Option F)
  pub build_time : W
  pub infer_start : W
  pub infer_end : W
  pub now : W
  pub iso : String
  pub phase_time : W
  pub quit : Bool

-- What is given to the program: its arguments, the two models and Python's `round`.
pub record Options (W F D : Type 0) : Type 0 where
  pub cameras : Directions (List ℕ)
  pub decision_interval : ℕ
  pub max_frames : ℕ
  pub detect : F → List D
  pub session : List W → Option (List W)
  pub round : W → ℕ → W

-- The loop goes on, has ended, or an exception has left it.
pub data Turn (W : Type 0) : Type 0 where
  going ended raised : Harness W → Turn W

module _ {W : Type 0} where
  unfoldable pub start : Bool → W → Harness W
  start logging now = record {
    frame_idx = 0;
    current_phase = 0;
    obs_builder = record { current_phase = pos 0; phase_start_time = now };
    log = if logging then some [] else none;
  }

module _ {W : Type 0} ⦃f : Float W⦄ where
  abbrev pub write_line : Option (List (Decision W)) → Decision W → Option (List (Decision W))
  write_line none line = none
  write_line (some lines) line = some (lines ++ line ∷ [])

  -- An action past the phases is clamped. `none` is an exception in the session or in `reshape`.
  unfoldable pub decide_action : (List W → Option (List W)) → List W → Option (ℕ × List W)
  decide_action session obs =
      if length obs == obs_size
      then (do
        logits ← session obs
        best ← argmax logits
        some ((if ltb 1 best then 1 else best), logits))
      else none

module _ {W F D : Type 0} ⦃f : Float W⦄ (o : Options W F D) where
  abbrev pub cam_count : Option F → ℕ
  cam_count none = 0
  cam_count (some frame) = length (o.detect frame)

  abbrev pub all_done : List (Option F) → Bool
  all_done [] = true
  all_done (none ∷ frames) = all_done frames
  all_done (some frame ∷ frames) = false

  abbrev pub counts_of : Round W F → Directions ℕ
  counts_of r = dir_counts o.cameras (map cam_count r.frames)

  unfoldable pub decision_of : Round W F → Harness W → List W → ℕ → List W → Decision W
  decision_of r h obs action logits = record {
    ts = r.now;
    iso = r.iso;
    frame = h.frame_idx;
    counts = counts_of r;
    obs = map (λ x. o.round x 5) obs;
    logits = map (λ x. o.round x 5) logits;
    action = action;
    recommended_phase = phase_by_action action;
    phase_elapsed_s = o.round (f.sub r.now h.obs_builder.phase_start_time) 3;
    infer_ms = o.round (f.mul (f.sub r.infer_end r.infer_start) (f.ratio 1000 1)) 3;
  }

  -- The line of the log, if there is one, then the phase that the policy gives itself.
  unfoldable pub follow : Round W F → List W → ℕ × List W → Harness W → Harness W
  unfolding decision_of
  follow r obs (action, logits) h =
      let log' = write_line h.log (decision_of r h obs action logits) in
      if action == h.current_phase then record h { log = log' } else record h {
        log = log';
        current_phase = action;
        obs_builder = set_phase h.obs_builder (pos action) r.phase_time;
      }

  unfoldable pub decide_frame : Round W F → Harness W → Option (Harness W)
  unfolding decide_action follow
  decide_frame r h =
      let c = counts_of r in
      let obs = build h.obs_builder r.build_time c.north c.east c.south c.west in
      do decided ← decide_action o.session obs; some (follow r obs decided h)

  unfoldable pub finish : Round W F → Option (Harness W) → Harness W → Turn W
  finish r none h = raised h
  finish r (some h') h =
      if r.quit then ended h' else going (record h' { frame_idx = h'.frame_idx + 1 })

  -- `frame_idx % 0` raises.
  unfoldable pub play : Round W F → Harness W → Turn W
  unfolding decide_frame finish
  play r h =
      if all_done r.frames || (ltb 0 o.max_frames && leb o.max_frames h.frame_idx)
      then ended h
      else if o.decision_interval == 0
      then raised h
      else if (h.frame_idx % o.decision_interval) == 0
      then finish r (decide_frame r h) h
      else finish r (some h) h

  unfoldable pub play_all : List (Round W F) → Harness W → Turn W
  unfolding play
  play_all [] h = going h
  play_all (r ∷ rs) h = elim (play r h) [
    | going h' ↦ play_all rs h'
    | ended h' ↦ ended h'
    | raised h' ↦ raised h'
  ]
