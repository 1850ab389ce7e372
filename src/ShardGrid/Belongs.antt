-- ===== src/ShardGrid/Belongs.antt =====
-- Which node a reference of frontend/src/utils/shard-grid-parser.ts leads to, and which shards a cell
-- can hold.
use secan.Base.{
  ℕ, ◌≡◌, refl, ap, ◌∙◌, String, Option, none, some, List, arith, ◌===◌, given, eq_iff, inl, inr,
  Bool-cases, Option-cases, All, All-append, All-flat_map, includes, ◌≢◌, get_elem?, ◌==◌, ◌&&◌,
  true,
}
use secan.Api.{NodeInfo, ShardInfo, NodeWithShards}
use secan.ShardGrid.{
  assigned_node, name_of, destination_shard, relocation_target, parse_nodes_with_shards,
}
use secan.ShardGrid.Identifiers.{identifiers, Separate, name_of-identifier}
use secan.ShardGrid.Cells.{locate, at_position, contribution, parse_nodes_with_shards-cells}
use secan.ShardGrid.Pushes.{cell}

-- If no identifier stands for two nodes and names are not empty, then a node is found under its id,
-- its name and its address.
pub locate-identifier :
    (nodes : List NodeInfo) (d : ℕ) (n : NodeInfo) (k : String)
    → Separate nodes
    → n.name ≢ ""
    → get_elem? nodes d ≡ some n
    → includes (identifiers n) k ≡ true
    → locate nodes (some k) ≡ some d
unfolding locate
locate-identifier nodes d n k sep nonempty at own =
    let (name, position) = name_of-identifier nodes d n k sep nonempty at own in
    rw (name, locate) position

-- A shard that belongs in the cell of a position and an index name.
abbrev pub Belongs : List NodeInfo → ℕ → String → ShardInfo → Type 0
Belongs nodes i k s =
    (s.index ≡ k) × (s.state ≢ "UNASSIGNED") × (locate nodes (given s.node) ≡ some i)

at_position-All :
    (P : ShardInfo → Type 0) (o : Option ℕ) (i : ℕ) (k : String) (s : ShardInfo)
    → (o ≡ some i → s.index ≡ k → P s)
    → All P (at_position o i k s)
at_position-All P none i k s h = tt
at_position-All P (some j) i k s h = elim (Bool-cases (j == i && s.index === k)) [
  | inl here ↦ rw here (h (ap some (ground arith)) (ground (arith, eq_iff s.index k)), tt)
  | inr other ↦ rw other tt
]

locate-none : (nodes : List NodeInfo) → locate nodes none ≡ none
unfolding locate name_of
locate-none nodes = refl

source-Belongs :
    (nodes : List NodeInfo) (i : ℕ) (k : String) (s : ShardInfo)
    → locate nodes (assigned_node s) ≡ some i
    → s.index ≡ k
    → Belongs nodes i k s
unfolding assigned_node
source-Belongs nodes i k s found own = elim (Bool-cases (s.state === "UNASSIGNED")) [
  | inl unassigned ↦ cc (locate-none nodes, (rw unassigned at found))
  | inr assigned ↦ (own, ground (arith, eq_iff s.state "UNASSIGNED"), rw assigned at found)
]

destination-Belongs :
    (nodes : List NodeInfo) (i : ℕ) (k : String) (s : ShardInfo)
    → locate nodes (relocation_target s) ≡ some i
    → s.index ≡ k
    → Belongs nodes i k (destination_shard s)
unfolding relocation_target destination_shard
destination-Belongs nodes i k s found own = elim (Bool-cases (s.state === "RELOCATING")) [
  | inl relocating ↦
      (own, ground (arith, eq_iff "INITIALIZING" "UNASSIGNED"), rw relocating at found)
  | inr resting ↦ cc (locate-none nodes, (rw resting at found))
]

contribution-Belongs :
    (nodes : List NodeInfo) (i : ℕ) (k : String) (s : ShardInfo)
    → All (Belongs nodes i k) (contribution nodes i k s)
contribution-Belongs nodes i k s = elim (Option-cases (locate nodes (assigned_node s))) [
  | inl missing ↦ rw (missing, contribution) tt
  | inr (j, found) ↦
      rw (found, contribution)
        (All-append (Belongs nodes i k) (at_position (some j) i k s) _
          (at_position-All (Belongs nodes i k) (some j) i k s
            (λ same own. source-Belongs nodes i k s (found ∙ same) own))
          (at_position-All (Belongs nodes i k) _ i k (destination_shard s)
            (λ same own. destination-Belongs nodes i k s same (unfold destination_shard in own))))
]

-- Every shard in a cell is one of the cell's index, is not unassigned, and names the cell's node.
pub parse_nodes_with_shards-Belongs :
    (nodes : List NodeInfo) (shards : List ShardInfo) (grid : List NodeWithShards) (i : ℕ)
    (k : String)
    → parse_nodes_with_shards nodes shards ≡ some grid
    → All (Belongs nodes i k) (cell i k grid)
parse_nodes_with_shards-Belongs nodes shards grid i k e =
    let (grid', run, _, cells) = parse_nodes_with_shards-cells nodes shards in
    let same : grid' ≡ grid = cc run in
    rw (← same) (
      rw (cells i k) (
        All-flat_map (Belongs nodes i k) (contribution nodes i k) shards
          (contribution-Belongs nodes i k)))
