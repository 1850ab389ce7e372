-- ===== src/IndexViz.antt =====
-- frontend/src/utils/indexVisualizationLayout.ts: the flow chart of an index, a header and under it a
-- card for each node that holds shards of the index. Lengths are in pixels; styles, tooltips and the
-- handlers that are passed on are left out.
pub mod Known
use mathlib.Core.Option
use secan.Base.{
  ℕ, Ordering, ◌+◌, ◌*◌, ◌-◌, String, Option, none, some, List, [], ◌∷◌, ◌++◌, Bool, true, false,
  not, ◌&&◌, if◌then◌else◌, ◌===◌, ◌==◌, ◌+++◌, keep, length, map, or_else, truthy, given, decimal,
  text_length,
}
use secan.Base.Dict.{Dict, get, put, push, group}
use secan.Base.Sort.{sort}
use secan.Api.{NodeInfo, ShardInfo}
use secan.ShardOrder.{Collation, sort_shards}
use secan.Colors.{compute_heap_percent, get_heap_color, get_load_color, get_shard_dot_color}
use secan.Canvas.{
  CardData, Dot, Card, shard_size, shard_gap, shards_per_row, unassigned_key, unassigned_node,
  estimate_group_min_width, cpu_color_of, load5m_of, badges_of, max, min,
}

abbrev pub subgroup_padding : ℕ
subgroup_padding = 8

abbrev pub sub_group_gap : ℕ
sub_group_gap = 16

abbrev pub index_header : ℕ
index_header = 36

abbrev pub index_padding : ℕ
index_padding = 16

abbrev pub subgroup_width : ℕ
subgroup_width = shards_per_row * (shard_size + shard_gap) + subgroup_padding * 2

unfoldable pub estimate_index_node_width : String → ℕ → ℕ → ℕ → ℕ
estimate_index_node_width index_name total primary replica =
    let name_width = max 40 (text_length index_name * 8) in
    let pills =
      decimal total
      +++ " shards "
      +++ decimal primary
      +++ " primary "
      +++ decimal replica
      +++ " replica" in
    name_width + max 40 (text_length pills * 9) + 32

pub record IndexHeader : Type 0 where
  pub width : ℕ
  pub index_name : String
  pub shard_count : ℕ
  pub primary_count : ℕ
  pub replica_count : ℕ

-- An edge leads from the header to each card.
pub record IndexViz : Type 0 where
  pub header : IndexHeader
  pub cards : List Card
  pub edge_targets : List String

abbrev pub key_of : ShardInfo → String
key_of s = or_else s.node unassigned_key

unfoldable pub group_shards : Dict (List ShardInfo) → List ShardInfo → Dict (List ShardInfo)
group_shards m [] = m
group_shards m (s ∷ shards) = group_shards (push (key_of s) s m) shards

abbrev pub put_given : Option String → NodeInfo → Dict NodeInfo → Dict NodeInfo
put_given none n m = m
put_given (some k) n m = put k n m

-- `nodeInfoByIdentifier`, from the ids, names and addresses that are not empty.
unfoldable pub infos_from : Dict NodeInfo → List NodeInfo → Dict NodeInfo
infos_from m [] = m
infos_from m (n ∷ nodes) =
    infos_from
      (put_given (given n.ip) n
        (put_given (given (some n.name)) n (put_given (given (some n.id)) n m)))
      nodes

-- The node of a key, the placeholder for the shards without one; `none` is the error that is thrown.
unfoldable pub info_of : List NodeInfo → String → Option NodeInfo
unfolding infos_from
info_of nodes key = elim (get key (infos_from [] nodes)) [
  | some n ↦ some n
  | none ↦ if key === unassigned_key then some unassigned_node else none
]

abbrev dot_of : ShardInfo → Dot
dot_of s = record { color = get_shard_dot_color s.state; primary = s.primary; shard = s }

abbrev primaries_first : ShardInfo → ShardInfo → Ordering
primaries_first a b =
    if not (a.shard == b.shard)
    then Ordering.eq
    else if a.primary && not b.primary
    then Ordering.lt
    else if not a.primary && b.primary
    then Ordering.gt
    else Ordering.eq

module _ (c : Collation) where
  -- The key of the shards without a node comes last.
  abbrev pub compare_keys : String → String → Ordering
  compare_keys a b =
      if a === unassigned_key
      then Ordering.gt
      else if b === unassigned_key
      then Ordering.lt
      else c.locale_compare a b

  unfoldable pub sorted_keys : Dict (List ShardInfo) → List String
  sorted_keys m = sort compare_keys (map (λ entry. entry.0) m)

  -- The second sort finds the shards of an index in its order already.
  unfoldable pub viz_card_data : NodeInfo → String → List ShardInfo → CardData
  unfolding badges_of
  viz_card_data node key shards =
      let sg_shards = sort primaries_first (sort_shards c shards) in
      let primary_count = length (keep (λ s. s.primary) sg_shards) in
      let replica_count = length (keep (λ s. not s.primary) sg_shards) in
      let heap_percent = compute_heap_percent (some node.heap_used) (some node.heap_max) in
      record {
        node = node;
        heap_percent = heap_percent;
        heap_color = get_heap_color heap_percent;
        cpu_color = cpu_color_of node.cpu_percent;
        load5m = load5m_of node.load_average;
        load_color = get_load_color (load5m_of node.load_average);
        is_unassigned = key === unassigned_key;
        group_label = none;
        is_valid_destination = false;
        primary_count = primary_count;
        replica_count = replica_count;
        total = length sg_shards;
        badges = badges_of (length sg_shards) primary_count replica_count;
        dots = map dot_of sg_shards;
        clickable = truthy node.id && not (node.id === unassigned_key);
        loading = false;
      }

  abbrev pub subgroup_card : ℕ → String → NodeInfo → List ShardInfo → Card
  subgroup_card i key node shards = record {
    id = "sg__" +++ key;
    x = index_padding + i * (subgroup_width + sub_group_gap);
    y = index_header + index_padding;
    width = estimate_group_min_width node;
    card_data = viz_card_data node key shards;
    parent_id = none;
  }

  -- The cards of the keys from a position on.
  unfoldable pub emit_cards :
      List NodeInfo → Dict (List ShardInfo) → ℕ → List String → Option (List Card)
  emit_cards nodes m i [] = some []
  emit_cards nodes m i (key ∷ keys) =
      let rest = emit_cards nodes m (i + 1) keys in
      elim (info_of nodes key) [
        | none ↦ none
        | some node ↦ elim rest [
          | none ↦ none
          | some cards ↦ some (subgroup_card i key node (group key m) ∷ cards)
        ]
      ]

  abbrev pub header_of : String → List ShardInfo → ℕ → IndexHeader
  header_of index_name shards width =
      let primaries = length (keep (λ (s : ShardInfo). s.primary) shards) in
      record {
        width = width;
        index_name = index_name;
        shard_count = length shards;
        primary_count = primaries;
        replica_count = length shards - primaries;
      }

  abbrev pub header_width : String → List ShardInfo → ℕ → ℕ
  header_width index_name shards groups =
      let primaries = length (keep (λ (s : ShardInfo). s.primary) shards) in
      let index_w = groups * subgroup_width + (groups - 1) * sub_group_gap + index_padding * 2 in
      max 120 (
        min index_w (
          estimate_index_node_width index_name (length shards) primaries
            (length shards - primaries)))

  unfoldable pub calculate_index_viz_layout :
      String → List NodeInfo → List ShardInfo → Option IndexViz
  unfolding group_shards sorted_keys emit_cards
  calculate_index_viz_layout index_name nodes [] = some (record {
    header = header_of index_name [] (max 120 (estimate_index_node_width index_name 0 0 0));
    cards = [];
    edge_targets = [];
  })
  calculate_index_viz_layout index_name nodes (s ∷ shards) =
      let m = group_shards [] (s ∷ shards) in
      Option.map
        (λ (cards : List Card). record {
          header =
              header_of index_name (s ∷ shards) (header_width index_name (s ∷ shards) (length m));
          cards = cards;
          edge_targets = map (λ (card : Card). card.id) cards;
        })
        (emit_cards nodes m 0 (sorted_keys m))
