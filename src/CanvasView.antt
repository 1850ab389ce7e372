-- ===== src/CanvasView.antt =====
-- frontend/src/components/Topology/CanvasTopologyView.tsx: what the topology canvas gives to its layout,
-- and what it does with the result. A zoom is in hundredths. Wildcards are a parameter; Wildcard models
-- what the page passes for it.
pub mod Dots
pub mod Passing
pub mod Cards
use mathlib.Core.Bool.{beq}
use secan.Base.{
  ℕ, String, Option, none, some, List, [], ◌∷◌, map, Bool, true, false, not, ◌&&◌, ◌||◌,
  if◌then◌else◌, ltb, ◌===◌, truthy, given, or_else, is_some, includes, keep, length, strip_prefix,
}
use secan.Base.Dict.{Dict, get, put, push}
use secan.Api.{NodeInfo, ShardInfo}
use secan.Grouping.{GroupingConfig}
use secan.Canvas.{CanvasInput, Card, CardData, FlowNode, card, container, unassigned_key}
use secan.Canvas.Layout.{calculate_canvas_layout}
use secan.ShardOrder.{Collation}

pub record NodeShardSummary : Type 0 where
  pub node_id : String
  pub node_name : String
  pub primary : ℕ
  pub replica : ℕ
  pub unassigned : ℕ
  pub total : ℕ

-- The props and the state of the view that the layout reads.
pub record View : Type 0 where
  pub nodes : List NodeInfo
  pub all_shards : Option (List ShardInfo)
  pub shard_summary : List NodeShardSummary
  pub selected_shard_states : Option (List String)
  pub show_special_indices : Bool
  pub index_name_filter : String
  pub node_name_filter : String
  pub matches_wildcard : Option (String → String → Bool)
  pub grouping_config : GroupingConfig
  pub relocation_mode : Bool
  pub valid_destination_nodes : Option (List String)
  pub is_loading : Option Bool
  pub size : ℕ × ℕ
  pub is_l2 : Bool
  pub unassigned_count_hint : ℕ

-- The effect that keeps the number of unassigned shards while the shards are not loaded.
unfoldable pub update_hint : View → View
update_hint v = elim v.all_shards [
  | none ↦ v
  | some shards ↦ record v {
    unassigned_count_hint = length (keep (λ s. not (is_some (given s.node))) shards);
  }
]

-- The page is told the zoom when it crosses the threshold.
unfoldable pub handle_zoom_change : ℕ → View → View × Option ℕ
handle_zoom_change zoom v =
    let new_is_l2 = ltb 70 zoom in
    if beq new_is_l2 v.is_l2 then (v, none) else (record v { is_l2 = new_is_l2 }, some zoom)

abbrev pub filtered_nodes : View → List NodeInfo
filtered_nodes v = elim v.matches_wildcard [
  | none ↦ v.nodes
  | some matches ↦
      if truthy v.node_name_filter
      then keep (λ n. matches n.name v.node_name_filter) v.nodes
      else v.nodes
]

abbrev pub add_summary : NodeShardSummary → Dict NodeShardSummary → Dict NodeShardSummary
add_summary s acc =
    let by_id = put s.node_id s acc in
    if s.node_name === s.node_id then by_id else put s.node_name s by_id

unfoldable pub summaries : List NodeShardSummary → Dict NodeShardSummary → Dict NodeShardSummary
summaries [] acc = acc
summaries (s ∷ rest) acc = summaries rest (add_summary s acc)

unfoldable pub summary_by_node : View → Dict NodeShardSummary
unfolding summaries
summary_by_node v =
    let acc = summaries v.shard_summary [] in
    let hint = v.unassigned_count_hint in
    if ltb 0 hint
    then put unassigned_key
        (record {
          node_id = unassigned_key;
          node_name = "Unassigned";
          primary = 0;
          replica = 0;
          unassigned = hint;
          total = hint;
        })
        acc
    else acc

-- The three filters of a shard.
abbrev pub state_selected : Option (List String) → String → Bool
state_selected none state = true
state_selected (some []) state = true
state_selected (some (x ∷ xs)) state = includes (x ∷ xs) state

abbrev pub name_matches : Option (String → String → Bool) → String → String → Bool
name_matches none name pattern = true
name_matches (some matches) name pattern = not (truthy pattern) || matches name pattern

unfoldable pub is_shown : View → ShardInfo → Bool
is_shown v s =
    state_selected v.selected_shard_states s.state
    && (v.show_special_indices || not (is_some (strip_prefix "." s.index)))
    && name_matches v.matches_wildcard s.index v.index_name_filter

abbrev pub key_of : ShardInfo → String
key_of s = or_else s.node unassigned_key

unfoldable pub collect_shards :
    View → List ShardInfo → Dict (List ShardInfo) → Dict (List ShardInfo)
unfolding push
collect_shards v [] acc = acc
collect_shards v (s ∷ rest) acc =
    collect_shards v rest (if is_shown v s then push (key_of s) s acc else acc)

unfoldable pub shards_by_node : View → Dict (List ShardInfo)
unfolding collect_shards
shards_by_node v = if v.is_l2 then collect_shards v (or_else v.all_shards []) [] else []

unfoldable pub canvas_input : View → CanvasInput
unfolding shards_by_node
canvas_input v = record {
  cluster_nodes = filtered_nodes v;
  shards_by_node = shards_by_node v;
  grouping_config = v.grouping_config;
  container_width = some v.size.0;
  container_height = some v.size.1;
  relocation_mode = v.relocation_mode;
  valid_destination_nodes = v.valid_destination_nodes;
  unassigned_shards_hint = some v.unassigned_count_hint;
  loading = v.is_loading;
}

-- `(nodeId && summary[nodeId]) ?? (nodeName && summary[nodeName])`, where `""` counts as no summary.
abbrev pub summary_of : Dict NodeShardSummary → Card → Option NodeShardSummary
summary_of m c =
    if truthy c.id
    then elim (get c.id m) [
      | some s ↦ some s
      | none ↦ if truthy c.card_data.node.name then get c.card_data.node.name m else none
    ]
    else none

abbrev pub with_summary : Option NodeShardSummary → Card → Card
with_summary none c = c
with_summary (some s) c = record c {
  card_data = record c.card_data {
    primary_count = s.primary;
    replica_count = s.replica;
    total = s.total;
  };
}

-- A container has no counts, and shows none.
unfoldable pub fill_counts : Dict NodeShardSummary → FlowNode → FlowNode
fill_counts m (container c) = container c
fill_counts m (card c) =
    card (if ltb 0 c.card_data.total then c else with_summary (summary_of m c) c)

unfoldable pub layout_nodes : Collation → View → List FlowNode
unfolding canvas_input fill_counts summary_by_node
layout_nodes collation v =
    map (fill_counts (summary_by_node v)) (calculate_canvas_layout collation (canvas_input v)).nodes
