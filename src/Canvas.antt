-- ===== src/Canvas.antt =====
-- frontend/src/utils/canvasLayout.ts and frontend/src/config/topologyConfig.ts: the layout of the
-- topology canvas. Lengths are in pixels. A card's data keep the node that they are copied from;
-- handlers that are passed on, tooltips, styles and the text of a size have no part in the layout.
-- `Number.isFinite` holds of all numbers here.
pub mod Grid
pub mod Containers
pub mod Layout
pub mod Columns
pub mod Apart
pub mod Inside
pub mod Grouped
use secan.Base.{
  ℕ, Ordering, ◌+◌, ◌*◌, ◌-◌, ◌/◌, String, Option, none, some, List, [], ◌∷◌, Bool, true, false,
  not, ◌&&◌, ◌||◌, if◌then◌else◌, ltb, leb, ◌==◌, ◌===◌, ◌+++◌, keep, any, length, includes, map,
  or_else, is_some, given, holds, get_elem?, decimal, text_length, ◌++◌,
}
use secan.Base.Dict.{Dict, get}
use secan.Base.Sort.{sort, then_by, first_if}
use secan.Api.{NodeInfo, ShardInfo}
use secan.ShardOrder.{Collation, sort_shards}
use secan.Grouping.{GroupingConfig}
use secan.Colors.{
  Percent, compute_heap_percent, get_heap_color, get_load_color, get_shard_dot_color,
  get_unassigned_shard_color,
}

abbrev pub shard_size : ℕ
shard_size = 18

abbrev pub shard_gap : ℕ
shard_gap = 3

abbrev pub shards_per_row : ℕ
shards_per_row = 6

abbrev pub max_shard_rows : ℕ
max_shard_rows = 6

abbrev pub group_width : ℕ
group_width = 280

abbrev pub horizontal_gap : ℕ
horizontal_gap = 60

abbrev pub vertical_gap : ℕ
vertical_gap = 40

abbrev pub unassigned_key : String
unassigned_key = "__unassigned__"

abbrev pub max : ℕ → ℕ → ℕ
max a b = if ltb a b then b else a

abbrev pub min : ℕ → ℕ → ℕ
min a b = if ltb a b then a else b

-- `estimateGroupMinWidth` with the default icon size of 13.
unfoldable pub estimate_group_min_width : NodeInfo → ℕ
estimate_group_min_width node =
    let version_width = if is_some (given node.version) then 36 else 0 in
    let master_badge_width = if node.is_master then 28 else 0 in
    let roles_width = length node.roles * (13 + 4) in
    let width =
      24 + text_length node.name * 8 + version_width + master_badge_width + roles_width + 12 in
    max group_width (min width 1000)

-- `Math.ceil` of the quotient is the division of the number made larger by one less than the divisor.
unfoldable pub estimated_group_height : ℕ → ℕ
estimated_group_height shard_count =
    let rows = min ((shard_count + (shards_per_row - 1)) / shards_per_row) max_shard_rows in
    80 + rows * (shard_size + shard_gap) + 12

abbrev pub is_master : NodeInfo → Bool
is_master node = includes node.roles "master"

pub record CanvasInput : Type 0 where
  pub cluster_nodes : List NodeInfo
  pub shards_by_node : Dict (List ShardInfo)
  pub grouping_config : GroupingConfig
  pub container_width : Option ℕ
  pub container_height : Option ℕ
  pub relocation_mode : Bool
  pub valid_destination_nodes : Option (List String)
  pub unassigned_shards_hint : Option ℕ
  pub loading : Option Bool

pub record Badge : Type 0 where
  pub label : String
  pub color : Option String

pub record Dot : Type 0 where
  pub color : String
  pub primary : Bool
  pub shard : ShardInfo

-- `ClusterGroupNodeDataFlat`. `clickable` tells that the input's handler of a click is passed on.
pub record CardData : Type 0 where
  pub node : NodeInfo
  pub heap_percent : Percent
  pub heap_color : String
  pub cpu_color : String
  pub load5m : Option ℕ
  pub load_color : String
  pub is_unassigned : Bool
  pub group_label : Option String
  pub is_valid_destination : Bool
  pub primary_count : ℕ
  pub replica_count : ℕ
  pub total : ℕ
  pub badges : List Badge
  pub dots : List Dot
  pub clickable : Bool
  pub loading : Bool

-- A node of the flow chart: a card, or the container of a group with its size.
pub record Card : Type 0 where
  pub id : String
  pub x : ℕ
  pub y : ℕ
  pub width : ℕ
  pub card_data : CardData
  pub parent_id : Option String

pub record Container : Type 0 where
  pub id : String
  pub x : ℕ
  pub width : ℕ
  pub height : ℕ
  pub label : String

pub data FlowNode : Type 0 where
  card : Card → FlowNode
  container : Container → FlowNode

-- The placeholder for the shards without a node.
abbrev pub unassigned_node : NodeInfo
unassigned_node = record {
  cpu_percent = none;
  disk_total = 0;
  disk_used = 0;
  heap_max = 0;
  heap_percent = 0;
  heap_used = 0;
  id = unassigned_key;
  ip = none;
  is_master = false;
  is_master_eligible = false;
  load_average = none;
  name = "Unassigned";
  roles = [];
  tags = none;
  uptime = none;
  uptime_millis = none;
  version = none;
}

-- `shardsByNode[node.name] ?? shardsByNode[node.id] ?? []`.
unfoldable pub shards_of : CanvasInput → NodeInfo → List ShardInfo
shards_of input node =
    or_else (get node.name input.shards_by_node) (or_else (get node.id input.shards_by_node) [])

unfoldable pub card_height : CanvasInput → NodeInfo → ℕ
unfolding shards_of estimated_group_height
card_height input node = estimated_group_height (length (shards_of input node))

abbrev pub cpu_color_of : Option ℕ → String
cpu_color_of none = "dimmed"
cpu_color_of (some p) = if ltb p 70 then "green" else if ltb p 85 then "yellow" else "red"

abbrev pub load5m_of : Option (List ℕ) → Option ℕ
load5m_of none = none
load5m_of (some loads) = get_elem? loads 1

abbrev pub dot_of : ShardInfo → Dot
dot_of s = record {
  color =
      if s.state === "UNASSIGNED"
      then get_unassigned_shard_color s.primary
      else get_shard_dot_color s.state;
  primary = s.primary;
  shard = s;
}

-- A badge that is left out at 0.
abbrev pub counted : ℕ → String → String → List Badge
counted n name color =
    if ltb 0 n then record { label = decimal n +++ name; color = some color } ∷ [] else []

unfoldable pub badges_of : ℕ → ℕ → ℕ → List Badge
badges_of total primary replica =
    record { label = decimal total +++ " shards"; color = none }
    ∷ (counted primary " primary" "blue" ++ counted replica " replica" "gray")

unfoldable pub is_valid_destination_of : CanvasInput → NodeInfo → Bool
is_valid_destination_of input node =
    input.relocation_mode
    && holds (λ ids. any (λ id. id === node.id || id === node.name) ids)
        input.valid_destination_nodes

module _ (c : Collation) where
  -- Master nodes first, then by name.
  unfoldable pub compare_cluster_nodes : NodeInfo → NodeInfo → Ordering
  compare_cluster_nodes a b =
      then_by (first_if (is_master a) (is_master b)) (c.locale_compare a.name b.name)

  unfoldable pub sort_cluster_nodes : List NodeInfo → List NodeInfo
  sort_cluster_nodes nodes = sort compare_cluster_nodes nodes

  unfoldable pub card_data_of :
      CanvasInput → NodeInfo → List ShardInfo → Option String → Bool → CardData
  unfolding is_valid_destination_of badges_of
  card_data_of input node shards group_label clickable =
      let is_unassigned = node.id === unassigned_key in
      let heap_percent =
        if is_unassigned
        then record { over = 0; under = 1 }
        else compute_heap_percent (some node.heap_used) (some node.heap_max) in
      let sorted_shards = sort_shards c shards in
      let primary_count = length (keep (λ s. s.primary) sorted_shards) in
      let replica_count = length (keep (λ s. not s.primary) sorted_shards) in
      let total = length sorted_shards in
      record {
        node = node;
        heap_percent = heap_percent;
        heap_color = if is_unassigned then "dimmed" else get_heap_color heap_percent;
        cpu_color = cpu_color_of node.cpu_percent;
        load5m = load5m_of node.load_average;
        load_color = get_load_color (load5m_of node.load_average);
        is_unassigned = is_unassigned;
        group_label = group_label;
        is_valid_destination = is_valid_destination_of input node;
        primary_count = primary_count;
        replica_count = replica_count;
        total = total;
        badges = badges_of total primary_count replica_count;
        dots = map dot_of sorted_shards;
        clickable = clickable;
        loading = or_else input.loading false;
      }

  -- `emitGroupNode`; `rf_node_id` and `parent_id` are its overrides.
  unfoldable pub emit_group_node :
      CanvasInput
      → NodeInfo
      → ℕ
      → ℕ
      → List ShardInfo
      → Option String
      → Bool
      → Option String
      → Option String
      → FlowNode
  unfolding card_data_of
  emit_group_node input node x y shards group_label clickable rf_node_id parent_id = card (record {
    id = or_else rf_node_id node.id;
    x = x;
    y = y;
    width = estimate_group_min_width node;
    card_data = card_data_of input node shards group_label clickable;
    parent_id = parent_id;
  })
