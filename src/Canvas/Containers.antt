-- ===== src/Canvas/Containers.antt =====
-- frontend/src/utils/canvasLayout.ts, the layout in groups: a container for each group, from left to
-- right, with its cards below one another, and a card for the shards without a node behind them.
use secan.Base.{
  ℕ, ◌+◌, ◌*◌, none, some, List, [], ◌∷◌, ◌++◌, true, false, if◌then◌else◌, ltb, ◌+++◌, String,
  or_else,
}
use secan.Base.Dict.{get}
use secan.Api.{NodeInfo}
use secan.ShardOrder.{Collation}
use secan.Grouping.{Groups, calculate_node_groups, get_group_label}
use secan.Canvas.{
  CanvasInput, FlowNode, Container, container, card_height, shards_of, emit_group_node,
  sort_cluster_nodes, unassigned_node, unassigned_key, group_width, horizontal_gap, vertical_gap,
  max,
}
use secan.Canvas.Grid.{has_unassigned}

abbrev pub container_padding_x : ℕ
container_padding_x = 12

abbrev pub container_padding_top : ℕ
container_padding_top = 36

abbrev pub container_padding_bottom : ℕ
container_padding_bottom = 24

abbrev pub container_vertical_gap : ℕ
container_vertical_gap = 12

abbrev pub container_width : ℕ
container_width = group_width + container_padding_x * 2

-- The heights of the cards, with a gap behind each but the last.
unfoldable pub total_content_height : CanvasInput → List NodeInfo → ℕ
total_content_height input [] = 0
total_content_height input (node ∷ []) = card_height input node
total_content_height input (node ∷ (next ∷ rest)) =
    card_height input node + container_vertical_gap + total_content_height input (next ∷ rest)

unfoldable pub container_height : CanvasInput → List NodeInfo → ℕ
unfolding total_content_height
container_height input sorted =
    container_padding_top + total_content_height input sorted + container_padding_bottom

abbrev pub container_id : String → String
container_id key = "group__" +++ key

-- The position behind the last container.
unfoldable pub end_x : ℕ → Groups → ℕ
end_x col_x [] = col_x
end_x col_x (group ∷ rest) = end_x (col_x + container_width + horizontal_gap) rest

module _ (collation : Collation) where
  -- The cards of a container, from a position within it on.
  unfoldable pub children : CanvasInput → String → ℕ → List NodeInfo → List FlowNode
  children input id child_y [] = []
  children input id child_y (node ∷ rest) =
      emit_group_node collation input node container_padding_x (container_padding_top + child_y)
        (shards_of input node) none true (some (node.id +++ ("__" +++ id))) (some id)
      ∷ children input id (child_y + card_height input node + container_vertical_gap) rest

  abbrev pub container_of : CanvasInput → String → ℕ → List NodeInfo → Container
  container_of input key x sorted = record {
    id = container_id key;
    x = x;
    width = container_width;
    height = container_height input sorted;
    label = get_group_label key input.grouping_config.attribute;
  }

  unfoldable pub group_nodes : CanvasInput → ℕ → Groups → List FlowNode
  unfolding children container_height
  group_nodes input col_x [] = []
  group_nodes input col_x ((key, nodes) ∷ rest) =
      let sorted = sort_cluster_nodes collation nodes in
      container (container_of input key col_x sorted)
      ∷ (children input (container_id key) 0 sorted
          ++ group_nodes input (col_x + container_width + horizontal_gap) rest)

  -- The greatest height of a container.
  unfoldable pub content_bottom : CanvasInput → Groups → ℕ → ℕ
  content_bottom input [] bottom = bottom
  content_bottom input ((key, nodes) ∷ rest) bottom =
      content_bottom input rest
        (max bottom (container_height input (sort_cluster_nodes collation nodes)))

  -- The card for the shards without a node has no handler of a click. No container is of height 0,
  -- so that the source's third case, for a layout without height and not empty, is not reached.
  unfoldable pub unassigned_card : CanvasInput → ℕ → ℕ → List FlowNode
  unfolding has_unassigned
  unassigned_card input x bottom =
      if has_unassigned input
      then emit_group_node collation input unassigned_node x
          (if ltb 0 bottom then bottom + vertical_gap else 0)
          (or_else (get unassigned_key input.shards_by_node) []) (some "Unassigned") false none none
        ∷ []
      else []

  unfoldable pub grouped_nodes : CanvasInput → List FlowNode
  unfolding group_nodes content_bottom unassigned_card end_x
  grouped_nodes input =
      let groups = calculate_node_groups input.cluster_nodes input.grouping_config in
      group_nodes input 0 groups
      ++ unassigned_card input (end_x 0 groups) (content_bottom input groups 0)
