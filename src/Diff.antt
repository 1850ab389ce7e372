-- ===== src/Diff.antt =====
-- frontend/src/utils/clusterDiff.ts: the changes between two snapshots of a cluster. The sets of ids
-- and names are the lists that they are made from, since the code only asks for membership.
pub mod Laws
use secan.Base.{
  ℕ, String, Option, none, some, List, map, Bool, false, not, ◌||◌, ltb, includes, keep, length,
}
use secan.Api.{NodeInfo, IndexInfo}

pub record ClusterState : Type 0 where
  pub nodes : List NodeInfo
  pub indices : List IndexInfo
  pub timestamp : ℕ

pub record ClusterChanges : Type 0 where
  pub nodes_added : List NodeInfo
  pub nodes_removed : List NodeInfo
  pub indices_created : List IndexInfo
  pub indices_deleted : List IndexInfo

abbrev pub node_ids : ClusterState → List String
node_ids s = map (λ (n : NodeInfo). n.id) s.nodes

abbrev pub index_names : ClusterState → List String
index_names s = map (λ (i : IndexInfo). i.name) s.indices

unfoldable pub detect_cluster_changes : Option ClusterState → ClusterState → Option ClusterChanges
detect_cluster_changes none current = none
detect_cluster_changes (some previous) current = some (record {
  nodes_added = keep (λ n. not (includes (node_ids previous) n.id)) current.nodes;
  nodes_removed = keep (λ n. not (includes (node_ids current) n.id)) previous.nodes;
  indices_created = keep (λ i. not (includes (index_names previous) i.name)) current.indices;
  indices_deleted = keep (λ i. not (includes (index_names current) i.name)) previous.indices;
})

pub has_changes : Option ClusterChanges → Bool
has_changes none = false
has_changes (some c) =
    ltb 0 (length c.nodes_added)
    || ltb 0 (length c.nodes_removed)
    || ltb 0 (length c.indices_created)
    || ltb 0 (length c.indices_deleted)
