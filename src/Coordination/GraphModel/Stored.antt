-- ===== src/Coordination/GraphModel/Stored.antt =====
-- `TrafficNetwork.to_dict` and `TrafficNetwork.load` (brain/src/coordination/graph_model.py), up to the
-- text of the file: what `json` writes and reads back is the value itself. A TypeError of a call
-- with keyword arguments is `none`, like a KeyError, and so is a value of another type than the
-- annotations ask for.
use semaforo.Prelude.{
  is_some, String, ℕ, Option, none, some, List, [], ◌∷◌, ◌++◌, map, Bool, if◌then◌else◌,
}
use semaforo.Prelude.Dict
use semaforo.Prelude.Dict.{Dict, get-put}
use semaforo.Float.{Float}
use semaforo.Network.Graph.{or_else, ◌>>=◌}
use semaforo.Coordination.GraphModel.{
  Value, text, number, integer, IntersectionNode, RoadEdge, TrafficNetwork, empty_network,
  add_intersection, add_road,
}

-- A member of one of the two lists: its member "metadata", and the others.
pub record Item (W : Type 0) : Type 0 where
  pub fields : Dict (Value W)
  pub metadata : Option (Dict (Value W))

pub record Stored (W : Type 0) : Type 0 where
  pub nodes : List (Item W)
  pub edges : List (Item W)

module _ {W : Type 0} where
  -- asdict(n) and asdict(e)
  abbrev pub node_asdict : IntersectionNode W → Item W
  node_asdict n = record {
    fields = ("id", text n.id) ∷ ("lat", number n.lat) ∷ ("lon", number n.lon) ∷ [];
    metadata = some n.metadata;
  }

  abbrev pub road_asdict : RoadEdge W → Item W
  road_asdict e = record {
    fields =
        ("source", text e.source)
        ∷ ("target", text e.target)
        ∷ ("length_m", number e.length_m)
        ∷ ("speed_limit_kmh", number e.speed_limit_kmh)
        ∷ ("lanes", integer e.lanes)
        ∷ [];
    metadata = some e.metadata;
  }

  -- The roads of all nodes, one node behind the other.
  unfoldable pub all_roads : Dict (List (RoadEdge W)) → List (RoadEdge W)
  all_roads [] = []
  all_roads ((u, es) ∷ edges) = es ++ all_roads edges

  unfoldable pub to_dict : TrafficNetwork W → Stored W
  unfolding all_roads
  to_dict net = record {
    nodes = map (λ e. node_asdict e.1) net.nodes;
    edges = map road_asdict (all_roads net.edges);
  }

  -- f(**fields, **meta): a name that is given twice is an error.
  unfoldable pub keywords : Dict (Value W) → Dict (Value W) → Option (Dict (Value W))
  keywords fields [] = some fields
  keywords fields ((k, v) ∷ meta) =
      let rest = keywords (Dict.put fields k v) meta in
      if is_some (Dict.get fields k) then none else rest

  abbrev pub as_text : Value W → Option String
  as_text (text t) = some t
  as_text _ = none

  abbrev pub as_number : Value W → Option W
  as_number (number x) = some x
  as_number _ = none

  abbrev pub as_integer : Value W → Option ℕ
  as_integer (integer n) = some n
  as_integer _ = none

  -- An argument without a default.
  abbrev pub required {ℓ} : {A : Type ℓ} → (Value W → Option A) → Dict (Value W) → String → Option A
  required read kwargs k = Dict.get kwargs k >>= read

  -- An argument with a default.
  abbrev pub optional {ℓ} :
      {A : Type ℓ} → (Value W → Option A) → A → Dict (Value W) → String → Option A
  optional read d kwargs k = elim (Dict.get kwargs k) [ none ↦ some d | some v ↦ read v ]

  -- What is left for `**metadata`.
  unfoldable pub without : List String → Dict (Value W) → Dict (Value W)
  without [] kwargs = kwargs
  without (k ∷ ks) kwargs = without ks (Dict.remove kwargs k)

  -- `self` is bound already.
  abbrev pub bound_twice : Dict (Value W) → Bool
  bound_twice kwargs = is_some (Dict.get kwargs "self")

module _ {W : Type 0} ⦃f : Float W⦄ where
  -- net.add_intersection(**kwargs)
  unfoldable pub call_add_intersection :
      TrafficNetwork W → Dict (Value W) → Option (TrafficNetwork W)
  unfolding without
  call_add_intersection net kwargs = do
    node_id ← required as_text kwargs "node_id"
    lat ← optional as_number (f.ratio 0 1) kwargs "lat"
    lon ← optional as_number (f.ratio 0 1) kwargs "lon"
    let metadata = without ("node_id" ∷ "lat" ∷ "lon" ∷ []) kwargs
    if bound_twice kwargs then none else some (add_intersection net node_id lat lon metadata)

  -- net.add_road(**kwargs)
  unfoldable pub call_add_road : TrafficNetwork W → Dict (Value W) → Option (TrafficNetwork W)
  unfolding without
  call_add_road net kwargs = do
    source ← required as_text kwargs "source"
    target ← required as_text kwargs "target"
    length_m ← optional as_number (f.ratio 0 1) kwargs "length_m"
    speed_limit_kmh ← optional as_number (f.ratio 50 1) kwargs "speed_limit_kmh"
    lanes ← optional as_integer 1 kwargs "lanes"
    let metadata =
        without ("source" ∷ "target" ∷ "length_m" ∷ "speed_limit_kmh" ∷ "lanes" ∷ []) kwargs
    let road : RoadEdge W = record {
      source = source;
      target = target;
      length_m = length_m;
      speed_limit_kmh = speed_limit_kmh;
      lanes = lanes;
      metadata = metadata;
    }
    if bound_twice kwargs then none else add_road net road

  unfoldable pub load_nodes : TrafficNetwork W → List (Item W) → Option (TrafficNetwork W)
  unfolding keywords
  load_nodes net [] = some net
  load_nodes net (x ∷ xs) = do
    kwargs ← keywords x.fields (or_else x.metadata [])
    net' ← call_add_intersection net kwargs
    load_nodes net' xs

  unfoldable pub load_roads : TrafficNetwork W → List (Item W) → Option (TrafficNetwork W)
  unfolding keywords
  load_roads net [] = some net
  load_roads net (x ∷ xs) = do
    kwargs ← keywords x.fields (or_else x.metadata [])
    net' ← call_add_road net kwargs
    load_roads net' xs

  unfoldable pub load : Stored W → Option (TrafficNetwork W)
  unfolding load_nodes load_roads
  load stored = do net ← load_nodes empty_network stored.nodes; load_roads net stored.edges
