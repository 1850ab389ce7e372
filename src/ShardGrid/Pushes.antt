-- ===== src/ShardGrid/Pushes.antt =====
-- The cells of the grid of frontend/src/utils/shard-grid-parser.ts, and what a push does to them.
use secan.Base.{
  ℕ, zero, suc, ◌<◌, ◌≡◌, refl, ap, String, none, some, List, [], ◌∷◌, ◌++◌, map, arith,
  if◌then◌else◌, ◌===◌, length, get_elem?, ◌==◌, ◌&&◌,
}
use mathlib.Core.List.{append-nil}
use secan.Base.Dict.{get, group, group-push}
use secan.Api.{NodeInfo, ShardInfo, NodeWithShards}
use secan.ShardGrid.{push_at, empty_node, get_shards_for_node_and_index}

-- The cell of a node's position and an index name.
abbrev pub cell : ℕ → String → List NodeWithShards → List ShardInfo
cell i k grid = elim (get_elem? grid i) [
  | none ↦ []
  | some node ↦ get_shards_for_node_and_index node k
]

abbrev pub infos : List NodeWithShards → List NodeInfo
infos = map (λ n. n.info)

pub infos-push_at :
    (j : ℕ) (k : String) (s : ShardInfo) (grid : List NodeWithShards)
    → infos (push_at j k s grid) ≡ infos grid
unfolding push_at
infos-push_at j k s [] = refl
infos-push_at zero k s (n ∷ ns) = refl
infos-push_at (suc j) k s (n ∷ ns) = ap (◌∷◌ n.info) (infos-push_at j k s ns)

pub cell-push_at :
    (j : ℕ) (key : String) (s : ShardInfo) (grid : List NodeWithShards) (i : ℕ) (k : String)
    → j < length grid
    → cell i k (push_at j key s grid)
      ≡ cell i k grid ++ (if j == i && key === k then s ∷ [] else [])
unfolding push_at get_shards_for_node_and_index
cell-push_at j key s [] i k h = absurd (omega arith)
cell-push_at zero key s (n ∷ ns) zero k h =
    ground (arith, group-push key k s n.shards, append-nil (group k n.shards))
cell-push_at zero key s (n ∷ ns) (suc i) k h = ground (arith, append-nil (cell i k ns))
cell-push_at (suc j) key s (n ∷ ns) zero k h = ground (arith, append-nil (group k n.shards))
cell-push_at (suc j) key s (n ∷ ns) (suc i) k h =
    ground (arith, cell-push_at j key s ns i k (omega arith))

pub length-infos : (grid : List NodeWithShards) → length (infos grid) ≡ length grid
length-infos [] = refl
length-infos (n ∷ ns) = ap suc (length-infos ns)

pub infos-map-empty_node : (nodes : List NodeInfo) → infos (map empty_node nodes) ≡ nodes
infos-map-empty_node [] = refl
infos-map-empty_node (n ∷ ns) = ap (◌∷◌ n) (infos-map-empty_node ns)

pub cell-map-empty_node :
    (nodes : List NodeInfo) (i : ℕ) (k : String) → cell i k (map empty_node nodes) ≡ []
unfolding get_shards_for_node_and_index get
cell-map-empty_node [] i k = refl
cell-map-empty_node (n ∷ ns) zero k = refl
cell-map-empty_node (n ∷ ns) (suc i) k = cell-map-empty_node ns i k
