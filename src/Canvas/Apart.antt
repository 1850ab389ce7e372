-- ===== src/Canvas/Apart.antt =====
-- frontend/src/utils/canvasLayout.ts: the cards of the grid do not overlap, and each node has one.
use mathlib.Core.List.{List, [], ◌∷◌, ◌++◌, map, Perm}
use secan.Base.Sort.{sort-perm}
use secan.Base.{
  ℕ, ◌+◌, ◌≤◌, ◌<◌, ◌≡◌, ◌⊎◌, inl, inr, refl, ap, ◌∙◌, Bool, true, false, if◌then◌else◌, leb,
  Option, none, some, length, or_else, arith, All, All-imp, All-both, All-each, Pairwise,
  Pairwise-imp, Pairwise-map, ltb, Bool-cases,
}
use secan.Api.{NodeInfo}
use secan.ShardOrder.{Collation}
use secan.Canvas.{
  CanvasInput, FlowNode, card, container, card_height, estimate_group_min_width, emit_group_node,
  unassigned_node, sort_cluster_nodes, compare_cluster_nodes, horizontal_gap, vertical_gap,
  group_width,
}
use secan.Canvas.Grid.{
  nth, replicate, Placed, in_turn, by_height, widest, column_widths, column_xs, nodes_to_layout,
  has_unassigned, grid_columns, grid_placed, grid_xs, grid_nodes, left_offset, placed_card,
}
use secan.Canvas.Columns.{
  IsChoice, in_turn-IsChoice, by_height-IsChoice, Below, place-Below, place-column, place-nodes,
  length-replicate, widest-holds, nth-map-range, length-map-range, column_xs-apart, columns_of-pos,
}

-- Both are cards, and one stands beside the other or below it with the gap between them, by the
-- width that a card is given and the height that is estimated for it.
abbrev pub Apart : CanvasInput → FlowNode → FlowNode → Type 0
Apart input (card a) (card b) =
    (a.x + a.width + horizontal_gap ≤ b.x)
    ⊎ ((b.x + b.width + horizontal_gap ≤ a.x)
        ⊎ (a.y + card_height input a.card_data.node + vertical_gap ≤ b.y))
Apart input (card a) (container b) = ⊥
Apart input (container a) other = ⊥

-- The node of a card.
abbrev pub node_of : FlowNode → Option NodeInfo
node_of (card k) = some k.card_data.node
node_of (container k) = none

pick-IsChoice :
    (few : Bool) (cols : ℕ) → 0 < cols → IsChoice cols (if few then in_turn cols else by_height)
pick-IsChoice true cols h = in_turn-IsChoice cols h
pick-IsChoice false cols h = by_height-IsChoice cols h

-- The card stands in one of the columns, whose width holds it.
abbrev Fits : ℕ → List ℕ → Placed → Type 0
Fits cols widths p = (p.column < cols) × (estimate_group_min_width p.node ≤ nth widths p.column)

placed-Fits :
    (cols : ℕ) (placed : List Placed)
    → All (λ (p : Placed). p.column < cols) placed
    → All (Fits cols (column_widths cols placed)) placed
unfolding column_widths
placed-Fits cols placed inside =
    All-imp {Q = Fits cols (column_widths cols placed)}
      (λ p h.
        (let z : 0 + p.column ≡ p.column = omega arith in
          (
            h.0,
            omega (
              arith,
              h.1 refl,
              nth-map-range (λ c. widest c group_width placed) 0 cols p.column h.0,
              ap (λ c. widest c group_width placed) z,
            ),
          )))
      placed
      (All-both (λ p. p.column < cols)
        (λ p.
          p.column ≡ p.column
          → estimate_group_min_width p.node ≤ widest p.column group_width placed)
        placed inside
        (All-each
          (λ c p. p.column ≡ c → estimate_group_min_width p.node ≤ widest c group_width placed)
          (λ p. p.column) placed (λ c. widest-holds c group_width placed)))

module _ (collation : Collation) (input : CanvasInput) where
  cards-Apart :
      (cols left : ℕ) (widths : List ℕ) (p q : Placed)
      → length widths ≡ cols
      → Fits cols widths p
      → Fits cols widths q
      → (p.column ≡ q.column → p.y + card_height input p.node + vertical_gap ≤ q.y)
      → Apart input
          (placed_card collation input (column_xs left widths) p)
          (placed_card collation input (column_xs left widths) q)
  unfolding emit_group_node
  cards-Apart cols left widths p q len (in_p, fit_p) (in_q, fit_q) below =
      elim (Bool-cases (ltb p.column q.column)) [
        | inl before ↦ inl (
            omega
              (arith, column_xs-apart left widths p.column q.column (ground arith) (omega arith)))
        | inr not_before ↦ elim (Bool-cases (ltb q.column p.column)) [
          | inl behind ↦ inr (
              inl (
                omega (
                  arith,
                  column_xs-apart left widths q.column p.column (ground arith) (omega arith),
                )))
          | inr not_behind ↦ inr (inr (below (ground arith)))
        ]
      ]

  cards-nodes :
      (xs : List ℕ) (placed : List Placed)
      → map node_of (map (placed_card collation input xs) placed)
        ≡ map some (map (λ (p : Placed). p.node) placed)
  unfolding emit_group_node
  cards-nodes xs [] = refl
  cards-nodes xs (p ∷ rest) = ap (λ l. some p.node ∷ l) (cards-nodes xs rest)

  grid_columns-pos : 0 < grid_columns collation input
  unfolding grid_columns
  grid_columns-pos =
      columns_of-pos (length (nodes_to_layout collation input)) (or_else input.container_width 0)
        (or_else input.container_height 0)

  -- In the layout without groups no two cards overlap: any two stand beside each other with the
  -- horizontal gap between them, or the later one below the earlier one with the vertical gap, by
  -- the widths of the cards and their estimated heights.
  pub grid_nodes-Apart : Pairwise (Apart input) (grid_nodes collation input)
  unfolding grid_nodes grid_placed grid_xs
  grid_nodes-Apart =
      let cols = grid_columns collation input in
      let nodes = nodes_to_layout collation input in
      let choose : ℕ → List ℕ → ℕ = if leb (length nodes) 16 then in_turn cols else by_height in
      let pick = pick-IsChoice (leb (length nodes) 16) cols grid_columns-pos in
      let zeros = length-replicate cols 0 in
      let placed = grid_placed collation input in
      let widths = column_widths cols placed in
      let left = left_offset (or_else input.container_width 0) widths in
      Pairwise-map (Apart input) (placed_card collation input (column_xs left widths)) placed (
        Pairwise-imp (Fits cols widths) (Below choose input)
          (λ p q.
            Apart input (placed_card collation input (column_xs left widths) p)
              (placed_card collation input (column_xs left widths) q))
          (λ p q.
            cards-Apart cols left widths p q (unfold column_widths in length-map-range _ 0 cols))
          placed
          (placed-Fits cols placed
            (place-column choose input cols 0 (replicate cols 0) nodes pick zeros))
          (place-Below choose input cols 0 (replicate cols 0) nodes pick zeros))

  -- In the layout without groups each node has exactly one card: the cards' nodes in their order are
  -- the nodes to lay out, which are the cluster's nodes reordered, and behind them the placeholder
  -- where there are shards without a node.
  pub grid_nodes-nodes :
      (map node_of (grid_nodes collation input)
        ≡ map some (
            if has_unassigned input
            then sort_cluster_nodes collation input.cluster_nodes ++ unassigned_node ∷ []
            else sort_cluster_nodes collation input.cluster_nodes))
      × Perm (sort_cluster_nodes collation input.cluster_nodes) input.cluster_nodes
  unfolding grid_nodes grid_placed nodes_to_layout sort_cluster_nodes
  grid_nodes-nodes =
      let cols = grid_columns collation input in
      let nodes = nodes_to_layout collation input in
      let choose : ℕ → List ℕ → ℕ = if leb (length nodes) 16 then in_turn cols else by_height in
      (
        cards-nodes (grid_xs collation input) (grid_placed collation input)
            ∙ ap (map some) (place-nodes choose input 0 (replicate cols 0) nodes),
        sort-perm (compare_cluster_nodes collation) input.cluster_nodes,
      )
