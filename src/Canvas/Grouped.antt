-- ===== src/Canvas/Grouped.antt =====
-- frontend/src/utils/canvasLayout.ts: the layout in groups as a whole.
use mathlib.Core.List.{List, [], ◌∷◌, ◌++◌, append-nil}
use secan.Base.{
  ℕ, ◌+◌, ◌≤◌, ◌<◌, ◌≡◌, refl, ap, sym, subst, ◌∙◌, String, some, arith, All, Pairwise, Bool-cases,
  inl, inr, text_length,
}
use secan.Base.Sort.{sort, insert}
use secan.Api.{NodeInfo}
use secan.ShardOrder.{Collation}
use secan.Grouping.{Groups, calculate_node_groups}
use secan.Canvas.{
  CanvasInput, FlowNode, Card, Container, card, container, estimate_group_min_width,
  emit_group_node, sort_cluster_nodes,
}
use secan.Canvas.Grid.{has_unassigned}
use secan.Canvas.Containers.{
  children, group_nodes, grouped_nodes, unassigned_card, content_bottom, end_x, container_height,
  container_id,
}
use secan.Canvas.Inside.{
  Inside, Under, Behind, containers_of, containers-Behind, children-Inside, children-Under,
}

containers-append :
    (xs ys : List FlowNode) → containers_of (xs ++ ys) ≡ containers_of xs ++ containers_of ys
containers-append [] ys = refl
containers-append (card k ∷ xs) ys = containers-append xs ys
containers-append (container k ∷ xs) ys = ap (λ l. k ∷ l) (containers-append xs ys)

module _ (collation : Collation) (input : CanvasInput) where
  containers-unassigned :
      (x bottom : ℕ) → containers_of (unassigned_card collation input x bottom) ≡ []
  unfolding unassigned_card emit_group_node
  containers-unassigned x bottom = elim (Bool-cases (has_unassigned input)) [
    | inl shown ↦ rw (unassigned_card, shown) refl
    | inr none_left ↦ rw (unassigned_card, none_left) refl
  ]

  -- In the layout in groups each container stands to the right of all containers before it, with the
  -- gap between them.
  pub grouped_nodes-Behind : Pairwise Behind (containers_of (grouped_nodes collation input))
  unfolding grouped_nodes
  grouped_nodes-Behind =
      let groups = calculate_node_groups input.cluster_nodes input.grouping_config in
      let placed = group_nodes collation input 0 groups in
      let bottom = content_bottom collation input groups 0 in
      subst (Pairwise Behind)
        (sym (
          containers-append placed (unassigned_card collation input (end_x 0 groups) bottom)
          ∙ ap (λ ks. containers_of placed ++ ks) (containers-unassigned (end_x 0 groups) bottom)
          ∙ append-nil (containers_of placed)))
        (containers-Behind collation input 0 groups)

  -- The cards of a group, whatever its nodes are: each belongs to the group's container and stands
  -- between the paddings at the container's top and bottom, and each stands below all before it with
  -- the gap between them, by their estimated heights.
  pub children-contained :
      (key : String) (nodes : List NodeInfo)
      → (let sorted = sort_cluster_nodes collation nodes in
          let cards = children collation input (container_id key) 0 sorted in
          All (Inside input (container_id key) (container_height input sorted)) cards
          × Pairwise (Under input) cards)
  unfolding container_height
  children-contained key nodes =
      let sorted = sort_cluster_nodes collation nodes in
      (
        children-Inside collation input (container_id key) 0 _ sorted (omega arith),
        children-Under collation input (container_id key) 0 sorted,
      )

-- A card that crosses the next container.
pub record Crossing (nodes : List FlowNode) : Type 0 where
  pub first : Container
  pub inner : Card
  pub next : Container
  pub rest : List FlowNode
  pub here : nodes ≡ container first ∷ (card inner ∷ (container next ∷ rest))
  pub within : inner.parent_id ≡ some first.id
  pub crosses : next.x < first.x + inner.x + inner.width

-- The width of a card with a long name.
wide : (node : NodeInfo) → 40 ≤ text_length node.name → 352 < estimate_group_min_width node
unfolding estimate_group_min_width
wide node long = ground arith

-- A node whose name has 40 characters or more and that is alone in its group reaches into the
-- container of the next group.
pub group_nodes-Crossing :
    (collation : Collation) (input : CanvasInput) (x : ℕ) (key next : String) (node : NodeInfo)
    (nodes : List NodeInfo) (rest : Groups)
    → 40 ≤ text_length node.name
    → Crossing (group_nodes collation input x ((key, node ∷ []) ∷ ((next, nodes) ∷ rest)))
unfolding group_nodes children emit_group_node sort_cluster_nodes sort insert
group_nodes-Crossing collation input x key next node nodes rest long = record {
  first = _;
  inner = _;
  next = _;
  rest = _;
  here = refl;
  within = refl;
  crosses = omega (arith, wide node long);
}
