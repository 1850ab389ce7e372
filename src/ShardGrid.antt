-- ===== src/ShardGrid.antt =====
-- frontend/src/utils/shard-grid-parser.ts: from the cluster's nodes, indices and shards to the grid
-- that the shard view draws. The maps of the source that hold node objects hold their positions
-- here, since the objects are shared with the array that is returned. `console.warn` is left out.
pub mod Pushes
pub mod Cells
pub mod Belongs
pub mod Identifiers
use secan.Base.{
  ℕ, zero, suc, ◌+◌, ◌*◌, String, Option, none, some, List, [], ◌∷◌, map, if◌then◌else◌, ◌===◌,
  given, keep,
}
use secan.Base.Dict.{Dict, get, put, group, push}
use secan.Api.{NodeInfo, IndexInfo, ShardInfo, NodeWithShards, IndexMetadata, ShardGridData}

-- One round of the loop: the node's id, its name and its address stand for its name.
pub set_identifiers : Dict String → NodeInfo → Dict String
set_identifiers m node = elim (given node.ip) [
  | none ↦ put node.name node.name (put node.id node.name m)
  | some ip ↦ put ip node.name (put node.name node.name (put node.id node.name m))
]

pub identifiers_from : Dict String → List NodeInfo → Dict String
identifiers_from m [] = m
identifiers_from m (node ∷ nodes) = identifiers_from (set_identifiers m node) nodes

pub build_node_identifier_map : List NodeInfo → Dict String
build_node_identifier_map nodes = identifiers_from [] nodes

-- The loop that fills `nodesByName`: of two nodes with one name the later is kept.
pub positions_from : ℕ → Dict ℕ → List NodeInfo → Dict ℕ
positions_from i m [] = m
positions_from i m (node ∷ nodes) = positions_from (suc i) (put node.name i m) nodes

pub nodes_by_name : List NodeInfo → Dict ℕ
nodes_by_name nodes = positions_from 0 [] nodes

-- Push a shard to the array of an index on the node at a position.
pub push_at : ℕ → String → ShardInfo → List NodeWithShards → List NodeWithShards
push_at i k s [] = []
push_at zero k s (n ∷ ns) = record n { shards = push k s n.shards } ∷ ns
push_at (suc i) k s (n ∷ ns) = n ∷ push_at i k s ns

-- The node reference of a shard that is not skipped.
pub assigned_node : ShardInfo → Option String
assigned_node s = if s.state === "UNASSIGNED" then none else given s.node

-- `map.get` of an identifier that may be missing; an empty name counts as missing.
pub name_of : Dict String → Option String → Option String
name_of ids none = none
name_of ids (some ref) = given (get ref ids)

-- The copy of a relocating shard that stands on the node it moves to.
pub destination_shard : ShardInfo → ShardInfo
destination_shard s = record s { node = s.relocating_node; state = "INITIALIZING" }

pub relocation_target : ShardInfo → Option String
relocation_target s = if s.state === "RELOCATING" then given s.relocating_node else none

module _ (ids : Dict String) (by_name : Dict ℕ) where
  pub add_destination : ShardInfo → List NodeWithShards → List NodeWithShards
  add_destination s grid = elim (name_of ids (relocation_target s)) [
    | none ↦ grid
    | some name ↦ elim (get name by_name) [
      | none ↦ grid
      | some j ↦ push_at j s.index (destination_shard s) grid
    ]
  ]

  -- The body of the loop over the shards; `none` is the exception of `assertDefined`.
  pub assign_shard : ShardInfo → List NodeWithShards → Option (List NodeWithShards)
  assign_shard s grid = elim (name_of ids (assigned_node s)) [
    | none ↦ some grid
    | some name ↦ elim (get name by_name) [
      | none ↦ none
      | some i ↦ some (add_destination s (push_at i s.index s grid))
    ]
  ]

  pub assign_shards : List ShardInfo → List NodeWithShards → Option (List NodeWithShards)
  assign_shards [] grid = some grid
  assign_shards (s ∷ shards) grid = elim (assign_shard s grid) [
    | none ↦ none
    | some grid' ↦ assign_shards shards grid'
  ]

abbrev pub empty_node : NodeInfo → NodeWithShards
empty_node node = record { info = node; shards = [] }

pub parse_nodes_with_shards : List NodeInfo → List ShardInfo → Option (List NodeWithShards)
parse_nodes_with_shards nodes shards =
    assign_shards (build_node_identifier_map nodes) (nodes_by_name nodes) shards
      (map empty_node nodes)

pub index_metadata : IndexInfo → IndexMetadata
index_metadata i = record {
  info = i;
  shard_count = i.primary_shards * (i.replica_shards + 1);
  docs_count = i.docs_count;
  size = i.store_size;
}

pub parse_index_metadata : List IndexInfo → List IndexMetadata
parse_index_metadata indices = map index_metadata indices

pub extract_unassigned_shards : List ShardInfo → List ShardInfo
extract_unassigned_shards shards = keep (λ s. s.state === "UNASSIGNED") shards

pub parse_shard_grid_data : List NodeInfo → List IndexInfo → List ShardInfo → Option ShardGridData
parse_shard_grid_data nodes indices shards = elim (parse_nodes_with_shards nodes shards) [
  | none ↦ none
  | some grid ↦ some (record {
    nodes = grid;
    indices = parse_index_metadata indices;
    unassigned_shards = extract_unassigned_shards shards;
  })
]

pub get_shards_for_node_and_index : NodeWithShards → String → List ShardInfo
get_shards_for_node_and_index node index_name = group index_name node.shards
