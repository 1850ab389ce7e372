-- ===== src/ShardLists.antt =====
-- frontend/src/pages/ClusterView.tsx, the lists of shards of the topology page: the pages of unassigned
-- shards that are collected, mergeShardLists and the numbers over them. The server's slice of a page is
-- `paginate_vec` of src/routes/clusters/pagination.rs.
pub mod Keys
pub mod Merging
pub mod Paging
pub mod Stats
use secan.Base.{
  ℕ, suc, zero, ◌+◌, ◌-◌, ◌*◌, String, Option, none, some, List, [], ◌∷◌, ◌++◌, map, Bool, true,
  false, not, ◌&&◌, if◌then◌else◌, ltb, ◌===◌, ◌+++◌, truthy, given, or_else, is_some, decimal,
  show_bool, length, take, drop, keep, includes,
}
use secan.Base.Dict.{Dict, get, put}
use secan.Api.{ShardInfo}

abbrev pub base_key : ShardInfo → String
base_key s = s.index +++ ":" +++ decimal s.shard +++ ":" +++ show_bool s.primary

abbrev pub node_key : String → String → String
node_key b node = b +++ ":" +++ node

abbrev pub unassigned_key : String → ℕ → String
unassigned_key b n = b +++ ":__unassigned__:" +++ decimal n

-- The two maps of `mergeShardLists`.
pub record Merged : Type 0 where
  pub counters : Dict ℕ
  pub merged_map : Dict ShardInfo

abbrev pub counted : String → Dict ℕ → ℕ
counted b counters = or_else (get b counters) 0

abbrev pub set_absent : String → ShardInfo → Dict ShardInfo → Dict ShardInfo
set_absent key s m = if is_some (get key m) then m else put key s m

-- The body of the loop.
unfoldable pub merge_shard : ShardInfo → Merged → Merged
merge_shard s m =
    let b = base_key s in
    elim (given s.node) [
      | some node ↦ record m { merged_map = set_absent (node_key b node) s m.merged_map }
      | none ↦
          let n = counted b m.counters in
          record {
            counters = put b (n + 1) m.counters;
            merged_map = set_absent (unassigned_key b n) s m.merged_map;
          }
    ]

unfoldable pub merge_each : List ShardInfo → Merged → Merged
unfolding merge_shard
merge_each [] m = m
merge_each (s ∷ rest) m = merge_each rest (merge_shard s m)

abbrev pub map_values : Dict ShardInfo → List ShardInfo
map_values [] = []
map_values ((k, v) ∷ m) = v ∷ map_values m

unfoldable pub merge_shard_lists :
    Option (List ShardInfo) → Option (List ShardInfo) → List ShardInfo
unfolding merge_each
merge_shard_lists all_shards_list unassigned_list =
    map_values
      (merge_each (or_else all_shards_list [] ++ or_else unassigned_list [])
        (record { counters = []; merged_map = [] })).merged_map

-- The items of a page of the server, whose pages are numbered from 1.
unfoldable pub paginate_vec : {A : Type 0} → List A → ℕ → ℕ → List A
paginate_vec items page page_size =
    let offset = (page - 1) * page_size in
    if ltb offset (length items) then take page_size (drop offset items) else []

-- The loop that collects pages until one is not full, from a page on; `none` is a loop that has not
-- ended on the fuel. A response without items ends it.
unfoldable pub collect_pages : {A : Type 0} → (ℕ → Option (List A)) → ℕ → ℕ → ℕ → Option (List A)
collect_pages get_shards page_size zero page = none
collect_pages get_shards page_size (suc fuel) page =
    let items = or_else (get_shards page) [] in
    elim (ltb (length items) page_size) [
      | true ↦ some items
      | false ↦ elim (collect_pages get_shards page_size fuel (page + 1)) [
        | none ↦ none
        | some rest ↦ some (items ++ rest)
      ]
    ]

-- The numbers of the cards over the topology.
pub record ShardStats : Type 0 where
  pub shard_count : ℕ
  pub primary_count : ℕ
  pub replica_count : ℕ
  pub unassigned_count : ℕ

pub record ShardSummary : Type 0 where
  pub primary : ℕ
  pub replica : ℕ

abbrev pub total_of : (ShardSummary → ℕ) → List ShardSummary → ℕ
total_of f [] = 0
total_of f (s ∷ rest) = f s + total_of f rest

module _ (matches_wildcard : String → String → Bool) where
  abbrev pub node_passes : String → Option String → Bool
  node_passes node_filter none = false
  node_passes node_filter (some node) = matches_wildcard node node_filter

  -- Whether a shard passes the filters of the page.
  unfoldable pub passes_filters : List String → String → String → ShardInfo → Bool
  passes_filters states index_filter node_filter s =
      if not (includes states s.state)
      then false
      else if truthy index_filter && not (matches_wildcard s.index index_filter)
      then false
      else if truthy node_filter && not (node_passes node_filter (given s.node))
      then false
      else true

  unfoldable pub shard_stats :
      List String
      → String
      → String
      → List ShardInfo
      → List ShardSummary
      → List ShardInfo
      → ShardStats
  unfolding passes_filters
  shard_stats states index_filter node_filter [] summary unassigned = record {
    shard_count =
        total_of (λ s. s.primary) summary + total_of (λ s. s.replica) summary + length unassigned;
    primary_count = total_of (λ s. s.primary) summary;
    replica_count = total_of (λ s. s.replica) summary;
    unassigned_count = length unassigned;
  }
  shard_stats states index_filter node_filter (m ∷ merged) summary unassigned =
      let filtered = keep (passes_filters states index_filter node_filter) (m ∷ merged) in
      record {
        shard_count = length filtered;
        primary_count = length (keep (λ s. s.primary) filtered);
        replica_count = length (keep (λ s. not s.primary) filtered);
        unassigned_count = length (keep (λ s. s.state === "UNASSIGNED") filtered);
      }
