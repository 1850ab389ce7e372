-- ===== src/Canvas/Layout.antt =====
-- frontend/src/utils/canvasLayout.ts, `calculateCanvasLayout`: the choice between the two layouts.
use secan.Base.{Option, none, some, List, [], ◌∷◌, String, map}
use secan.Api.{NodeInfo}
use secan.ShardOrder.{Collation}
use secan.Grouping.{GroupingAttribute, by_none, by_role, by_type, by_label}
use secan.Canvas.{CanvasInput, FlowNode}
use secan.Canvas.Grid.{Edge, anchor, range, grid_nodes, grid_edges, grid_columns}
use secan.Canvas.Containers.{grouped_nodes}

-- The edges and the further nodes are left out of a layout in groups, and of an empty one.
pub record CanvasLayout : Type 0 where
  pub nodes : List FlowNode
  pub dagre_edges : Option (List Edge)
  pub dagre_extra_nodes : Option (List String)

abbrev without_edges : List FlowNode → CanvasLayout
without_edges nodes = record { nodes = nodes; dagre_edges = none; dagre_extra_nodes = none }

module _ (collation : Collation) where
  abbrev grid_layout : CanvasInput → CanvasLayout
  grid_layout input = record {
    nodes = grid_nodes collation input;
    dagre_edges = some (grid_edges collation input);
    dagre_extra_nodes = some (map anchor (range 0 (grid_columns collation input)));
  }

  unfoldable pub layout_by : GroupingAttribute → CanvasInput → CanvasLayout
  layout_by by_none input = grid_layout input
  layout_by by_role input = without_edges (grouped_nodes collation input)
  layout_by by_type input = without_edges (grouped_nodes collation input)
  layout_by by_label input = without_edges (grouped_nodes collation input)

  unfoldable pub layout_of : List NodeInfo → CanvasInput → CanvasLayout
  unfolding layout_by
  layout_of [] input = without_edges []
  layout_of (node ∷ nodes) input = layout_by input.grouping_config.attribute input

  unfoldable pub calculate_canvas_layout : CanvasInput → CanvasLayout
  unfolding layout_of
  calculate_canvas_layout input = layout_of input.cluster_nodes input
