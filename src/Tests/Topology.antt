-- ===== src/Tests/Topology.antt =====
-- Runs of the grouping of nodes, and of the changes of a cluster.
use secan.Base.{◌≡◌, none, [], ◌∷◌}
use secan.Base.Dict.{group}
use secan.Grouping.{GroupingConfig, by_type, calculate_node_groups}
use secan.Grouping.Groups.{calculate_node_groups-group}
use secan.Diff.{ClusterChanges}
use secan.Tests.Data.{cluster, node_a, node_b}

abbrev types : GroupingConfig
types = record { attribute = by_type; value = none }

calculate_node_groups-group_example :
    group "master" (calculate_node_groups cluster types) ≡ node_b ∷ []
calculate_node_groups-group_example = calculate_node_groups-group cluster types "master"

abbrev changes : ClusterChanges
changes = record {
  nodes_added = [];
  nodes_removed = node_a ∷ [];
  indices_created = [];
  indices_deleted = [];
}
