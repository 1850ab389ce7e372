-- ===== src/Tests/Canvases.antt =====
-- The theorems on the canvas and on the colours at a small cluster.
use mathlib.Core.List.{[], ◌∷◌}
use secan.Base.{◌≡◌, refl, none, some, true, false, All, Pairwise, arith, ◌+++◌}
use secan.Api.{NodeInfo}
use secan.Grouping.{by_role}
use secan.Canvas.{CanvasInput, sort_cluster_nodes}
use secan.Canvas.Grid.{grid_nodes}
use secan.Canvas.Containers.{children, group_nodes, container_id, container_height}
use secan.Canvas.Apart.{Apart, grid_nodes-Apart}
use secan.Canvas.Inside.{Inside, Under}
use secan.Canvas.Grouped.{Crossing, children-contained, group_nodes-Crossing}
use secan.Colors.{is_numeric_suffix, without_suffix, get_index_grouping_key, get_color_for_index}
use secan.Colors.Naming.{get_color_for_index-append}
use secan.Tests.Data.{node_a, node_b, cluster, moving, lost}
use secan.Tests.Views.{flat}

abbrev canvas : CanvasInput
canvas = record {
  cluster_nodes = cluster;
  shards_by_node = ("alpha", moving ∷ []) ∷ (("__unassigned__", lost ∷ []) ∷ []);
  grouping_config = record { attribute = by_role; value = none };
  container_width = some 1200;
  container_height = some 800;
  relocation_mode = false;
  valid_destination_nodes = none;
  unassigned_shards_hint = none;
  loading = none;
}

grid_nodes-Apart_example : Pairwise (Apart canvas) (grid_nodes flat canvas)
grid_nodes-Apart_example = grid_nodes-Apart flat canvas

children-contained_example :
    let sorted = sort_cluster_nodes flat cluster in
    let cards = children flat canvas (container_id "data") 0 sorted in
    All (Inside canvas (container_id "data") (container_height canvas sorted)) cards
    × Pairwise (Under canvas) cards
children-contained_example = children-contained flat canvas "data" cluster

abbrev long_node : NodeInfo
long_node = record node_a { name = "elasticsearch-data-hot-zone-europe-west-1a" }

group_nodes-Crossing_example :
    Crossing (group_nodes flat canvas 0 (("data", long_node ∷ []) ∷ (("master", node_b ∷ []) ∷ [])))
group_nodes-Crossing_example =
    group_nodes-Crossing flat canvas 0 "data" "master" long_node (node_b ∷ []) [] (omega arith)

get_color_for_index-append_example :
    (get_index_grouping_key (".logs" +++ "-2026.02.03-232320") true
      ≡ get_index_grouping_key ".logs" true)
    × (get_color_for_index (".logs" +++ "-2026.02.03-232320") true
        ≡ get_color_for_index ".logs" true)
get_color_for_index-append_example =
    get_color_for_index-append ".logs" "-2026.02.03-232320" true (unfold is_numeric_suffix in refl)
      (unfold without_suffix in refl)
