-- ===== src/Tests/Harness.antt =====
-- Two cameras and a policy that prefers the axis with fewer cars, over three frames.
use semaforo.Prelude.{ℕ, ◌≡◌, refl, String, true, false, some, List, [], ◌∷◌, map, ℤ, get_or, arith}
use semaforo.Float.{clip}
use semaforo.Float.Fixed.{fixed, fixed-IsOrdered}
use semaforo.Network.Graph.{or_else}
use semaforo.Network.Policy.{
  argmax, Telemetry, number, null, predict, phase_by_action, telemetry_to_observation,
}
use semaforo.Network.Policy.Greedy.{IsGreatestAt}
use semaforo.Vision.Harness.Agree.{predict-decide_action}
use semaforo.Vision.{build, set_phase}
use semaforo.Vision.Harness.{
  Decision, Harness, Round, Options, dir_to_cameras, dir_counts, decide_action, play_all, start,
}
use semaforo.Vision.Harness.Cameras.{sees}
use semaforo.Vision.Harness.Counts.{IsLargest, seen, dir_counts-IsLargest}
use semaforo.Vision.Harness.Rollout.{IsDone, last_state, play_all-IsRollout}

abbrev directions : List String
directions = "NS" ∷ "EW" ∷ []

-- A frame is a list of the vehicles on it.
abbrev options : Options ℤ (List ℕ) ℕ
options = record {
  cameras = dir_to_cameras (λ s. s) directions;
  decision_interval = 2;
  max_frames = 0;
  detect = λ frame. frame;
  session = λ obs. some (get_or obs 0 (fixed.ratio 0 1) ∷ get_or obs 1 (fixed.ratio 0 1) ∷ []);
  round = λ x n. x;
}

abbrev frame_of : List ℕ → List ℕ → Round ℤ (List ℕ)
frame_of ns ew = record {
  frames = some ns ∷ some ew ∷ [];
  build_time = fixed.ratio 5 1;
  infer_start = fixed.ratio 5 1;
  infer_end = fixed.ratio 6 1;
  now = fixed.ratio 7 1;
  iso = "";
  phase_time = fixed.ratio 7 1;
  quit = false;
}

abbrev rounds : List (Round ℤ (List ℕ))
rounds = frame_of (1 ∷ []) (1 ∷ 2 ∷ []) ∷ frame_of [] [] ∷ frame_of (1 ∷ 2 ∷ 3 ∷ []) (1 ∷ []) ∷ []

abbrev actions_of : Harness ℤ → List (ℕ × ℕ)
actions_of h = map (λ line. (line.frame, line.action)) (or_else h.log [])

rounds_actions :
    actions_of (last_state options (play_all options rounds (start true (fixed.ratio 0 1))))
    ≡ (0, 1) ∷ (2, 0) ∷ []
unfolding play_all start build argmax clip dir_counts dir_to_cameras set_phase
rounds_actions = refl

play_all-IsRollout_example :
    (at : ℕ) × (lines : List (Decision ℤ)) × IsDone options at lines
      (last_state options (play_all options rounds (start true (fixed.ratio 0 1))))
play_all-IsRollout_example = play_all-IsRollout options rounds (fixed.ratio 0 1) (omega arith)

dir_counts-IsLargest_example :
    let d = dir_counts (dir_to_cameras (λ s. s) directions) (3 ∷ 2 ∷ []) in
    let by : String → String → List ℕ =
      λ one axis. seen (λ s. sees one axis s) directions (3 ∷ 2 ∷ []) in
    IsLargest d.north (by "N" "NS")
    × IsLargest d.east (by "E" "EW")
    × IsLargest d.south (by "S" "NS")
    × IsLargest d.west (by "W" "EW")
dir_counts-IsLargest_example = dir_counts-IsLargest (λ s. s) directions (3 ∷ 2 ∷ [])

abbrev telemetry : Telemetry ℤ
telemetry = record {
  intersection_id = "c0";
  phase = "GREEN_EW";
  vehicle_count = number (fixed.ratio 12 1);
  total_vehicles = number (fixed.ratio 12 1);
  flow_rate = null;
}

predict-decide_action_example :
    (obs logits : List ℤ) × (k : ℕ) × (m : ℤ) × (telemetry_to_observation telemetry ≡ some obs)
    × (decide_action options.session obs ≡ some (k, logits))
    × (phase_by_action k ≡ some "GREEN_NS")
    × IsGreatestAt fixed-IsOrdered logits k m
unfolding predict clip
predict-decide_action_example =
    predict-decide_action fixed-IsOrdered options.session telemetry "GREEN_NS" refl
