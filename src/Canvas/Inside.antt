-- ===== src/Canvas/Inside.antt =====
-- frontend/src/utils/canvasLayout.ts: containers and the cards in them.
use mathlib.Core.List.{List, [], ◌∷◌, ◌++◌}
use secan.Base.{
  ℕ, ◌+◌, ◌≤◌, ◌≡◌, refl, sym, subst, String, none, some, arith, All, All-imp, Pairwise, true,
  ◌+++◌,
}
use secan.Api.{NodeInfo}
use secan.ShardOrder.{Collation}
use secan.Grouping.{Groups}
use secan.Canvas.{
  CanvasInput, FlowNode, Container, card, container, card_height, emit_group_node, shards_of,
  horizontal_gap, sort_cluster_nodes,
}
use secan.Canvas.Containers.{
  children, group_nodes, total_content_height, container_of, container_id, container_width,
  container_padding_x, container_padding_top, container_padding_bottom, container_vertical_gap,
}

-- A card of a container, between the paddings at its top and its bottom, by its estimated height.
abbrev pub Inside : CanvasInput → String → ℕ → FlowNode → Type 0
Inside input id height (card k) =
    (k.parent_id ≡ some id)
    × (k.x ≡ container_padding_x)
    × (container_padding_top ≤ k.y)
    × (k.y + card_height input k.card_data.node + container_padding_bottom ≤ height)
Inside input id height (container k) = ⊥

-- The second stands below the first, with the gap between them.
abbrev pub Under : CanvasInput → FlowNode → FlowNode → Type 0
Under input (card a) (card b) =
    a.y + card_height input a.card_data.node + container_vertical_gap ≤ b.y
Under input (card a) (container b) = ⊥
Under input (container a) other = ⊥

-- At or below a position within the container.
abbrev From : ℕ → FlowNode → Type 0
From y (card k) = container_padding_top + y ≤ k.y
From y (container k) = ⊥

module _ (collation : Collation) (input : CanvasInput) (id : String) where
  children-From :
      (y : ℕ) (nodes : List NodeInfo) → All (From y) (children collation input id y nodes)
  unfolding children emit_group_node
  children-From y [] = tt
  children-From y (node ∷ rest) = (omega arith, lower _ (children-From next rest))
    where
      next : ℕ
      next = y + card_height input node + container_vertical_gap

      down : (k : FlowNode) → From next k → From y k
      down (card k) h = omega arith
      down (container k) h = h

      lower : (ks : List FlowNode) → All (From next) ks → All (From y) ks
      lower ks h = All-imp down ks h

  pub children-Inside :
      (y height : ℕ) (nodes : List NodeInfo)
      → container_padding_top + y + total_content_height input nodes + container_padding_bottom
        ≤ height
      → All (Inside input id height) (children collation input id y nodes)
  unfolding children emit_group_node total_content_height
  children-Inside y height [] h = tt
  children-Inside y height (node ∷ []) h = ((refl, refl, omega arith, omega arith), tt)
  children-Inside y height (node ∷ (next ∷ rest)) h = (
    (refl, refl, omega arith, omega arith),
    children-Inside (y + card_height input node + container_vertical_gap) height (next ∷ rest)
        (omega arith),
  )

  pub children-Under :
      (y : ℕ) (nodes : List NodeInfo) → Pairwise (Under input) (children collation input id y nodes)
  unfolding children emit_group_node
  children-Under y [] = tt
  children-Under y (node ∷ rest) =
      (All-imp under _ (children-From next rest), children-Under next rest)
    where
      next : ℕ
      next = y + card_height input node + container_vertical_gap

      first : FlowNode
      first =
          emit_group_node collation input node container_padding_x (container_padding_top + y)
            (shards_of input node) none true (some (node.id +++ ("__" +++ id))) (some id)

      under : (k : FlowNode) → From next k → Under input first k
      under (card k) h = omega arith
      under (container k) h = h

-- A container stands behind another one, with the gap between them.
abbrev pub Behind : Container → Container → Type 0
Behind a b = a.x + a.width + horizontal_gap ≤ b.x

-- The containers of a layout.
abbrev pub containers_of : List FlowNode → List Container
containers_of [] = []
containers_of (card k ∷ rest) = containers_of rest
containers_of (container k ∷ rest) = k ∷ containers_of rest

module _ (collation : Collation) (input : CanvasInput) where
  containers-children :
      (id : String) (y : ℕ) (nodes : List NodeInfo) (rest : List FlowNode)
      → containers_of (children collation input id y nodes ++ rest) ≡ containers_of rest
  unfolding children emit_group_node
  containers-children id y [] rest = refl
  containers-children id y (node ∷ nodes) rest =
      containers-children id (y + card_height input node + container_vertical_gap) nodes rest

  containers-From :
      (x : ℕ) (groups : Groups)
      → All (λ (k : Container). x ≤ k.x) (containers_of (group_nodes collation input x groups))
  unfolding group_nodes
  containers-From x [] = tt
  containers-From x ((key, nodes) ∷ rest) =
      let next = x + container_width + horizontal_gap in
      (
        omega arith,
        subst (All (λ (k : Container). x ≤ k.x))
            (sym (containers-children (container_id key) 0 (sort_cluster_nodes collation nodes) _))
            (All-imp (λ (k : Container) (h : next ≤ k.x). (let l : x ≤ k.x = omega arith in l)) _
              (containers-From next rest)),
      )

  pub containers-Behind :
      (x : ℕ) (groups : Groups)
      → Pairwise Behind (containers_of (group_nodes collation input x groups))
  unfolding group_nodes
  containers-Behind x [] = tt
  containers-Behind x ((key, nodes) ∷ rest) =
      let next = x + container_width + horizontal_gap in
      let here = container_of collation input key x (sort_cluster_nodes collation nodes) in
      subst (λ ks. All (Behind here) ks × Pairwise Behind ks)
        (sym (containers-children (container_id key) 0 (sort_cluster_nodes collation nodes) _))
        (
          All-imp {Q = Behind here} (λ k h. h) _ (containers-From next rest),
          containers-Behind next rest,
        )
