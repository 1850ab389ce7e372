-- ===== src/Canvas/Grid.antt =====
-- frontend/src/utils/canvasLayout.ts, the layout without groups: a grid that is filled in turn, or
-- by the shortest column. The source runs the assignment of nodes to columns twice with one result,
-- once for the widths and once for the cards; the heights that the second choice goes by are the
-- positions that the next cards get.
use secan.Base.{
  ℕ, zero, suc, ◌+◌, ◌*◌, ◌-◌, ◌/◌, ◌%◌, none, some, List, [], ◌∷◌, ◌++◌, Bool, true, ◌&&◌, ◌||◌,
  if◌then◌else◌, ltb, leb, ◌==◌, ◌===◌, ◌+++◌, String, length, or_else, decimal, holds, map, keep,
  flat_map, or_else,
}
use secan.Base.Dict.{get}
use secan.Api.{NodeInfo}
use secan.ShardOrder.{Collation}
use secan.Canvas.{
  CanvasInput, FlowNode, estimate_group_min_width, card_height, shards_of, emit_group_node,
  sort_cluster_nodes, unassigned_node, unassigned_key, group_width, horizontal_gap, vertical_gap,
  max, min,
}

-- Reads and writes of an array of numbers.
abbrev pub nth : List ℕ → ℕ → ℕ
nth [] i = 0
nth (x ∷ xs) zero = x
nth (x ∷ xs) (suc i) = nth xs i

abbrev pub add_at : ℕ → ℕ → List ℕ → List ℕ
add_at i d [] = []
add_at zero d (x ∷ xs) = (x + d) ∷ xs
add_at (suc i) d (x ∷ xs) = x ∷ add_at i d xs

abbrev pub replicate : ℕ → ℕ → List ℕ
replicate zero x = []
replicate (suc n) x = x ∷ replicate n x

-- The numbers from one on, so many of them.
abbrev pub range : ℕ → ℕ → List ℕ
range from zero = []
range from (suc n) = from ∷ range (from + 1) n

-- Whether a number is at most the square root of a fraction, rounded.
abbrev fits_root : ℕ → ℕ → ℕ → Bool
fits_root p q zero = true
fits_root p q (suc k) = leb ((2 * k + 1) * (2 * k + 1) * q) (4 * p)

-- `Math.round(Math.sqrt(p / q))`, the greatest such number up to a bound.
unfoldable pub round_sqrt : ℕ → ℕ → ℕ → ℕ
round_sqrt p q zero = 0
round_sqrt p q (suc bound) =
    let smaller = round_sqrt p q bound in if fits_root p q (suc bound) then suc bound else smaller

-- `N * aspect` as a fraction.
unfoldable pub columns_of : ℕ → ℕ → ℕ → ℕ
unfolding round_sqrt
columns_of n w h =
    let root =
      if ltb 0 w && ltb 0 h
      then (if ltb (w * 10) h then round_sqrt n 10 (n + 1) else round_sqrt (n * w) h (n * w + 1))
      else round_sqrt n 1 (n + 1) in
    min (max 1 root) (max 1 n)

unfoldable pub has_unassigned : CanvasInput → Bool
has_unassigned input =
    ltb 0 (length (or_else (get unassigned_key input.shards_by_node) []))
    || holds (λ n. ltb 0 n) input.unassigned_shards_hint

-- The column with the least height, the first of several.
unfoldable pub shortest_from : ℕ → ℕ → ℕ → List ℕ → ℕ
shortest_from c min_col min_val [] = min_col
shortest_from c min_col min_val (h ∷ hs) =
    shortest_from (c + 1) (if ltb h min_val then c else min_col)
      (if ltb h min_val then h else min_val) hs

unfoldable pub shortest : List ℕ → ℕ
unfolding shortest_from
shortest [] = 0
shortest (h ∷ hs) = shortest_from 1 0 h hs

pub record Placed : Type 0 where
  pub node : NodeInfo
  pub column : ℕ
  pub y : ℕ

-- The loop over the nodes; `choose` takes the node's position and the heights of the columns.
unfoldable pub place : (ℕ → List ℕ → ℕ) → CanvasInput → ℕ → List ℕ → List NodeInfo → List Placed
place choose input i heights [] = []
place choose input i heights (node ∷ rest) =
    let c = choose i heights in
    record { node = node; column = c; y = nth heights c }
    ∷ place choose input (i + 1) (add_at c (card_height input node + vertical_gap) heights) rest

abbrev pub in_turn : ℕ → ℕ → List ℕ → ℕ
in_turn zero i heights = 0
in_turn (suc n) i heights = i % suc n

abbrev pub by_height : ℕ → List ℕ → ℕ
by_height i heights = shortest heights

-- The width of a column.
unfoldable pub widest : ℕ → ℕ → List Placed → ℕ
widest c width [] = width
widest c width (p ∷ rest) =
    widest c (if p.column == c then max width (estimate_group_min_width p.node) else width) rest

unfoldable pub column_widths : ℕ → List Placed → List ℕ
unfolding widest
column_widths cols placed = map (λ c. widest c group_width placed) (range 0 cols)

abbrev sum : List ℕ → ℕ
sum [] = 0
sum (x ∷ xs) = x + sum xs

-- `Math.floor` of the half; a negative one is 0.
unfoldable pub left_offset : ℕ → List ℕ → ℕ
left_offset w widths =
    let grid_width = sum widths + (length widths - 1) * horizontal_gap in (w - grid_width) / 2

unfoldable pub column_xs : ℕ → List ℕ → List ℕ
column_xs x [] = []
column_xs x (width ∷ widths) = x ∷ column_xs (x + width + horizontal_gap) widths

pub record Edge : Type 0 where
  pub id : String
  pub source : String
  pub target : String

abbrev pub anchor : ℕ → String
anchor c = "__col_anchor_" +++ decimal c

abbrev chain : ℕ → List Edge
chain zero = []
chain (suc c) =
    record {
      id = "anchor_chain_" +++ decimal c +++ "_" +++ decimal (suc c);
      source = anchor c;
      target = anchor (suc c);
    }
    ∷ []

unfoldable pub column_edges : List Placed → ℕ → List Edge
column_edges placed c =
    map
      (λ (p : Placed). (record {
        id = "anchor_" +++ decimal c +++ "_" +++ p.node.id;
        source = anchor c;
        target = p.node.id;
      }))
      (keep (λ p. p.column == c) placed)
    ++ chain c

module _ (collation : Collation) where
  unfoldable pub nodes_to_layout : CanvasInput → List NodeInfo
  unfolding has_unassigned
  nodes_to_layout input =
      let sorted = sort_cluster_nodes collation input.cluster_nodes in
      if has_unassigned input then sorted ++ unassigned_node ∷ [] else sorted

  unfoldable pub grid_columns : CanvasInput → ℕ
  unfolding nodes_to_layout columns_of
  grid_columns input =
      columns_of (length (nodes_to_layout input)) (or_else input.container_width 0)
        (or_else input.container_height 0)

  unfoldable pub grid_placed : CanvasInput → List Placed
  unfolding nodes_to_layout place
  grid_placed input =
      let nodes = nodes_to_layout input in
      let cols = grid_columns input in
      let choose = if leb (length nodes) 16 then in_turn cols else by_height in
      place choose input 0 (replicate cols 0) nodes

  unfoldable pub grid_xs : CanvasInput → List ℕ
  unfolding column_widths column_xs left_offset
  grid_xs input =
      let widths = column_widths (grid_columns input) (grid_placed input) in
      column_xs (left_offset (or_else input.container_width 0) widths) widths

  abbrev pub placed_card : CanvasInput → List ℕ → Placed → FlowNode
  placed_card input xs p =
      emit_group_node collation input p.node (nth xs p.column) p.y (shards_of input p.node)
        (if p.node.id === unassigned_key then some "Unassigned" else none) true none none

  unfoldable pub grid_nodes : CanvasInput → List FlowNode
  unfolding grid_placed grid_xs
  grid_nodes input = map (placed_card input (grid_xs input)) (grid_placed input)

  unfoldable pub grid_edges : CanvasInput → List Edge
  unfolding column_edges
  grid_edges input = flat_map (column_edges (grid_placed input)) (range 0 (grid_columns input))
