-- ===== src/Networks.antt =====
-- brain/sumo_networks/network_generator.py: the nodes and edges of the networks that it writes, as
-- values with the attributes of the XML elements. Their compilation is netconvert's.
pub mod Wiring
use semaforo.Prelude.{
  ℕ, zero, suc, ◌+◌, ◌-◌, String, List, [], ◌∷◌, ◌++◌, if◌then◌else◌, ltb, ℤ, pos, negsuc, sub_ℕ,
}
use semaforo.Prelude.Text.{◌+++◌, show_int}
use semaforo.Float.{Float}

pub record Node (W : Type 0) : Type 0 where
  pub id : String
  pub x : W
  pub y : W
  pub kind : String

pub record Edge (W : Type 0) : Type 0 where
  pub id : String
  pub source : String
  pub target : String
  pub num_lanes : ℕ
  pub speed : W

module _ {W : Type 0} where
  abbrev pub node : String → W → W → String → Node W
  node id x y kind = record { id = id; x = x; y = y; kind = kind }

  abbrev pub edge : ℕ → W → String → String → String → Edge W
  edge num_lanes speed id source target = record {
    id = id;
    source = source;
    target = target;
    num_lanes = num_lanes;
    speed = speed;
  }

abbrev pub directions : List String
directions = "north" ∷ "south" ∷ "east" ∷ "west" ∷ []

-- c{i}
abbrev pub crossing : ℤ → String
crossing i = "c" +++ show_int i

module _ {W : Type 0} ⦃f : Float W⦄ where
  unfoldable pub single_nodes : W → List (Node W)
  single_nodes approach_length =
      node "center" (f.ratio 0 1) (f.ratio 0 1) "traffic_light"
      ∷ node "north" (f.ratio 0 1) approach_length "priority"
      ∷ node "south" (f.ratio 0 1) (f.neg approach_length) "priority"
      ∷ node "east" approach_length (f.ratio 0 1) "priority"
      ∷ node "west" (f.neg approach_length) (f.ratio 0 1) "priority"
      ∷ []

  unfoldable pub single_edges : ℕ → W → List String → List (Edge W)
  single_edges num_lanes speed_ms [] = []
  single_edges num_lanes speed_ms (name ∷ names) =
      edge num_lanes speed_ms (name +++ "_in") name "center"
      ∷ edge num_lanes speed_ms (name +++ "_out") "center" name
      ∷ single_edges num_lanes speed_ms names

  -- speed_kmh / 3.6, to two decimals: `round2` is Python's round.
  abbrev pub speed_ms : (W → W) → W → W
  speed_ms round2 speed_kmh = round2 (f.div speed_kmh (f.ratio 36 10))

  unfoldable pub generate_single_intersection : (W → W) → ℕ → W → W → List (Node W) × List (Edge W)
  unfolding single_nodes single_edges
  generate_single_intersection round2 num_lanes approach_length speed_kmh =
      (single_nodes approach_length, single_edges num_lanes (speed_ms round2 speed_kmh) directions)

  -- an `int` as a float
  abbrev pub of_int : ℤ → W
  of_int (pos n) = f.ratio n 1
  of_int (negsuc n) = f.neg (f.ratio (suc n) 1)

  -- The loop over the intersections, for `k` of them from `i` on.
  unfoldable pub corridor_nodes_from : W → W → ℕ → ℕ → List (Node W)
  corridor_nodes_from spacing_m approach_length i zero = []
  corridor_nodes_from spacing_m approach_length i (suc k) =
      let cx = f.mul (f.ratio i 1) spacing_m in
      node (crossing (pos i)) cx (f.ratio 0 1) "traffic_light"
      ∷ node (crossing (pos i) +++ "_north") cx approach_length "priority"
      ∷ node (crossing (pos i) +++ "_south") cx (f.neg approach_length) "priority"
      ∷ corridor_nodes_from spacing_m approach_length (suc i) k

  unfoldable pub corridor_nodes : ℕ → W → W → List (Node W)
  unfolding corridor_nodes_from
  corridor_nodes num_intersections spacing_m approach_length =
      let last_x = f.add (f.mul (of_int (sub_ℕ num_intersections 1)) spacing_m) approach_length in
      node "west_entry" (f.neg approach_length) (f.ratio 0 1) "priority"
      ∷ (corridor_nodes_from spacing_m approach_length 0 num_intersections
          ++ node "east_entry" last_x (f.ratio 0 1) "priority" ∷ [])

  -- The links to the next intersection, if there is one.
  unfoldable pub corridor_links : ℕ → W → ℕ → ℕ → List (Edge W)
  corridor_links num_lanes speed num_intersections i =
      let here = crossing (pos i) in
      let next = crossing (pos (i + 1)) in
      if ltb (i + 1) num_intersections
      then edge num_lanes speed (here +++ "_to_" +++ next) here next
        ∷ edge num_lanes speed (next +++ "_to_" +++ here) next here
        ∷ []
      else []

  unfoldable pub corridor_edges_from : ℕ → W → ℕ → ℕ → ℕ → List (Edge W)
  unfolding corridor_links
  corridor_edges_from num_lanes speed num_intersections i zero = []
  corridor_edges_from num_lanes speed num_intersections i (suc k) =
      let here = crossing (pos i) in
      (edge num_lanes speed (here +++ "_north_in") (here +++ "_north") here
        ∷ edge num_lanes speed (here +++ "_north_out") here (here +++ "_north")
        ∷ edge num_lanes speed (here +++ "_south_in") (here +++ "_south") here
        ∷ edge num_lanes speed (here +++ "_south_out") here (here +++ "_south")
        ∷ [])
      ++ corridor_links num_lanes speed num_intersections i
      ++ corridor_edges_from num_lanes speed num_intersections (suc i) k

  unfoldable pub corridor_edges : ℕ → W → ℕ → List (Edge W)
  unfolding corridor_edges_from
  corridor_edges num_lanes speed num_intersections =
      let last = crossing (sub_ℕ num_intersections 1) in
      (edge num_lanes speed "west_entry_to_c0" "west_entry" "c0"
        ∷ edge num_lanes speed "c0_to_west_entry" "c0" "west_entry"
        ∷ [])
      ++ corridor_edges_from num_lanes speed num_intersections 0 num_intersections
      ++ (edge num_lanes speed (last +++ "_to_east_entry") last "east_entry"
          ∷ edge num_lanes speed ("east_entry_to_" +++ last) "east_entry" last
          ∷ [])

  unfoldable pub generate_corridor : (W → W) → ℕ → W → ℕ → W → W → List (Node W) × List (Edge W)
  unfolding corridor_nodes corridor_edges
  generate_corridor round2 num_intersections spacing_m num_lanes speed_kmh approach_length = (
    corridor_nodes num_intersections spacing_m approach_length,
    corridor_edges num_lanes (speed_ms round2 speed_kmh) num_intersections,
  )
