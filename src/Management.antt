-- ===== src/Management.antt =====
-- frontend/src/pages/ShardManagement.tsx: the shards of a cluster by index, state and node, and the
-- indices that are listed. With it the allocation of shards, which that page and
-- frontend/src/pages/ClusterView.tsx read from the cluster's settings (frontend/src/api/client.ts,
-- getClusterSettings) and frontend/src/hooks/useShardAllocation.ts changes. The search in a name without
-- case and the comparison by locale are parameters.
pub mod Listing
pub mod Allocation
pub mod Requests
use Prim.Native.Nat.{Ordering}
use secan.Base.{
  ℕ, String, Option, none, some, List, [], ◌∷◌, map, Bool, true, false, not, ◌&&◌, ◌||◌,
  if◌then◌else◌, ltb, ◌===◌, truthy, or_else, any, keep, length,
}
use secan.Base.Dict.{Dict, group, push}
use secan.Base.Sort.{sort}
use secan.Api.{ShardInfo}
use secan.Canvas.{unassigned_key}
use secan.Navigation.{set_param, delete_param}
use secan.Json.{Value, text, object, end, prop, chain, nullish, either}

-- `updateParam`; `none` is the empty text or `false`.
unfoldable pub update_param : String → Option String → Dict String → Dict String
unfolding set_param
update_param key none params = delete_param key params
update_param key (some value) params = set_param key value params

-- The three loops that group the shards. The source's objects inherit names such as `constructor`, which
-- are not modelled: an index of that name would make the loop throw.
unfoldable pub shards_by :
    (ShardInfo → String) → List ShardInfo → Dict (List ShardInfo) → Dict (List ShardInfo)
unfolding push
shards_by key [] acc = acc
shards_by key (s ∷ rest) acc = shards_by key rest (push (key s) s acc)

abbrev pub keys : Dict (List ShardInfo) → List String
keys m = map (λ e. e.0) m

abbrev pub is_affected : ShardInfo → Bool
is_affected s = s.state === "UNASSIGNED" || s.state === "RELOCATING" || s.state === "INITIALIZING"

module _ (finds : String → String → Bool) (by_locale : String → String → Ordering) where
  -- Object.keys with the two filters. The order of the keys is that of their first shards; the language
  -- takes names that are numbers first, which the sort makes good.
  unfoldable pub matching_indices : String → Bool → Dict (List ShardInfo) → List String
  matching_indices index_filter show_only_affected by_index =
      let named =
        if truthy index_filter
        then keep (λ index. finds index index_filter) (keys by_index)
        else keys by_index in
      if show_only_affected
      then keep (λ index. any is_affected (group index by_index)) named
      else named

  unfoldable pub filtered_indices : String → Bool → Bool → List ShardInfo → List String
  unfolding matching_indices shards_by
  filtered_indices index_filter show_only_affected sort_ascending shards =
      sort (λ a b. if sort_ascending then by_locale a b else by_locale b a)
        (matching_indices index_filter show_only_affected (shards_by (λ s. s.index) shards []))

abbrev pub count_in : String → List ShardInfo → ℕ
count_in state shards = length (group state (shards_by (λ s. s.state) shards []))

unfoldable pub has_problems : List ShardInfo → Bool
unfolding shards_by
has_problems shards =
    ltb 0 (count_in "UNASSIGNED" shards)
    || ltb 0 (count_in "RELOCATING" shards)
    || ltb 0 (count_in "INITIALIZING" shards)

abbrev pub by_node : List ShardInfo → Dict (List ShardInfo)
by_node shards = shards_by (λ s. or_else s.node unassigned_key) shards []

abbrev pub assigned_nodes : List ShardInfo → List String
assigned_nodes shards = keep (λ node. not (node === unassigned_key)) (keys (by_node shards))

-- The settings of a cluster, with an empty object for what the answer lacks.
pub record ClusterSettings : Type 0 where
  pub transient : Option Value
  pub persistent : Option Value
  pub defaults : Option Value

unfoldable pub cluster_settings_of : Option Value → ClusterSettings
cluster_settings_of answer =
    let given_data = either answer (some (object end)) in
    record {
      transient = nullish (chain given_data "transient") (some (object end));
      persistent = nullish (chain given_data "persistent") (some (object end));
      defaults = nullish (chain given_data "defaults") none;
    }

abbrev pub enable_of : Option Value → Option Value
enable_of source = chain (chain (chain (chain source "cluster") "routing") "allocation") "enable"

abbrev pub enable_value : ClusterSettings → Option Value
enable_value s =
    either (either (enable_of s.transient) (enable_of s.persistent)) (some (text "all"))

abbrev pub says : Option Value → String → Bool
says (some (text t)) s = t === s
says _ s = false

abbrev pub text_or_all : Option Value → String
text_or_all (some (text t)) = t
text_or_all _ = "all"

-- The state that the header of the cluster's pages shows; settings that are not there yet are `none`.
unfoldable pub allocation_state : Option ClusterSettings → String
allocation_state none = "all"
allocation_state (some s) =
    let v = enable_value s in
    if says v "all" || says v "primaries" || says v "new_primaries" || says v "none"
    then text_or_all v
    else "all"

-- What the page of the shards makes of them.
unfoldable pub shard_allocation_enabled : Option ClusterSettings → Bool
shard_allocation_enabled none = true
shard_allocation_enabled (some s) = says (enable_value s) "all"
