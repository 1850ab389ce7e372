-- ===== src/ShardOrder.antt =====
-- frontend/src/utils/shardOrdering.ts and frontend/src/utils/node-sorting.ts: the orders in which
-- shards and nodes are shown. `localeCompare` belongs to the language's library and depends on the
-- locale, so it is a parameter; `sort` is stable, as the language prescribes.
pub mod Laws
use secan.Base.{
  ℕ, compare, Ordering, String, Option, none, some, List, Bool, true, false, ◌||◌, ◌===◌, includes,
  if◌then◌else◌,
}
use secan.Base.Sort.{sort, then_by, first_if, IsConsistent}
use secan.Api.{ShardInfo, NodeInfo}

-- `localeCompare`, a consistent comparison of strings.
pub record Collation : Type 0 where
  pub locale_compare : String → String → Ordering
  pub consistent : IsConsistent locale_compare

unfoldable pub state_priority : String → ℕ
state_priority state =
    if state === "STARTED"
    then 0
    else if state === "RELOCATING"
    then 1
    else if state === "INITIALIZING"
    then 2
    else if state === "UNASSIGNED"
    then 3
    else 999

unfoldable pub is_master_node : NodeInfo → Bool
is_master_node n = n.is_master || includes n.roles "master"

module _ (c : Collation) where
  unfoldable pub compare_shards : ShardInfo → ShardInfo → Ordering
  compare_shards a b = then_by (c.locale_compare a.index b.index) (
      then_by (compare a.shard b.shard) (
        then_by (first_if a.primary b.primary)
          (compare (state_priority a.state) (state_priority b.state))))

  pub sort_shards : List ShardInfo → List ShardInfo
  sort_shards shards = sort compare_shards shards

  pub compare_nodes : NodeInfo → NodeInfo → Ordering
  compare_nodes a b =
      then_by (first_if (is_master_node a) (is_master_node b)) (c.locale_compare a.name b.name)

  pub sort_nodes_master_first : List NodeInfo → List NodeInfo
  sort_nodes_master_first nodes = sort compare_nodes nodes
