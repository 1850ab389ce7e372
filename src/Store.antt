-- ===== src/Store.antt =====
-- frontend/src/stores/shard-grid-store.ts: the state of the shard view as a record, and each action
-- as a function. An action that reads the clock takes the time; `clearInterval` is the list of the
-- timers that the action stops. An error is its message.
pub mod Destinations
pub mod Cache
pub mod Polling
pub mod Tracking
use secan.Base.{
  ℕ, ◌+◌, ◌==◌, ltb, String, Option, none, some, List, [], ◌∷◌, Bool, true, false, not, ◌||◌,
  if◌then◌else◌, ◌===◌, ◌+++◌, includes, any, holds, decimal, show_bool,
}
use secan.Base.Dict.{Dict, put, group}
use secan.Base.Keys.{add, delete}
use secan.Api.{ShardInfo, NodeWithShards, IndexMetadata, ShardGridData}

pub record ShardGridState : Type 0 where
  pub nodes : List NodeWithShards
  pub indices : List IndexMetadata
  pub unassigned_shards : List ShardInfo
  pub cached_data : Option ShardGridData
  pub cache_timestamp : Option ℕ
  pub cache_ttl : ℕ
  pub selected_shard : Option ShardInfo
  pub relocation_mode : Bool
  pub destination_indicators : Dict ShardInfo
  pub loading : Bool
  pub error : Option String
  pub is_polling : Bool
  pub polling_interval_id : Option ℕ
  pub polling_start_time : Option ℕ
  pub relocating_shards : List String

abbrev pub initial_state : ShardGridState
initial_state = record {
  nodes = [];
  indices = [];
  unassigned_shards = [];
  cached_data = none;
  cache_timestamp = none;
  cache_ttl = 30000;
  selected_shard = none;
  relocation_mode = false;
  destination_indicators = [];
  loading = false;
  error = none;
  is_polling = false;
  polling_interval_id = none;
  polling_start_time = none;
  relocating_shards = [];
}

pub get_shard_key : ShardInfo → String
get_shard_key s = s.index +++ ":" +++ decimal s.shard +++ ":" +++ show_bool s.primary

-- The virtual shard that shows where the shard would go.
pub destination_indicator : ShardInfo → String → ShardInfo
destination_indicator shard id = record shard { node = some id; state = "STARTED" }

-- One round of the loop, with its three guards.
pub add_valid_destination : ShardInfo → Dict ShardInfo → NodeWithShards → Dict ShardInfo
add_valid_destination shard destinations node =
    if holds (λ ref. node.id === ref || node.name === ref) shard.node
    then destinations
    else if any (λ s. s.shard == shard.shard) (group shard.index node.shards)
    then destinations
    else if not (includes node.roles "data")
    then destinations
    else put node.id (destination_indicator shard node.id) destinations

pub valid_destinations_from : ShardInfo → Dict ShardInfo → List NodeWithShards → Dict ShardInfo
valid_destinations_from shard destinations [] = destinations
valid_destinations_from shard destinations (node ∷ nodes) =
    valid_destinations_from shard (add_valid_destination shard destinations node) nodes

pub calculate_valid_destinations : ShardInfo → List NodeWithShards → Dict ShardInfo
calculate_valid_destinations shard nodes = valid_destinations_from shard [] nodes

pub set_cache_data :
    List NodeWithShards → List IndexMetadata → List ShardInfo → ℕ → ShardGridState → ShardGridState
set_cache_data nodes indices shards now s = record s {
  cached_data = some (record { nodes = nodes; indices = indices; unassigned_shards = shards });
  cache_timestamp = some now;
}

-- A timestamp of 0 counts as missing; `now - t < ttl` over the integers is `now < ttl + t`.
pub timestamp_is_fresh : Option ℕ → ℕ → ℕ → Bool
timestamp_is_fresh none ttl now = false
timestamp_is_fresh (some t) ttl now = if t == 0 then false else ltb now (ttl + t)

pub get_cached_data : ℕ → ShardGridState → Option ShardGridData
get_cached_data now s = elim s.cached_data [
  | none ↦ none
  | some cached ↦ if timestamp_is_fresh s.cache_timestamp s.cache_ttl now then some cached else none
]

pub is_cache_valid : ℕ → ShardGridState → Bool
is_cache_valid now s = timestamp_is_fresh s.cache_timestamp s.cache_ttl now

pub invalidate_cache : ShardGridState → ShardGridState
invalidate_cache s = record s { cached_data = none; cache_timestamp = none }

pub enter_relocation_mode : ShardInfo → ShardGridState → ShardGridState
enter_relocation_mode shard s = record s {
  selected_shard = some shard;
  relocation_mode = true;
  destination_indicators = calculate_valid_destinations shard s.nodes;
}

pub exit_relocation_mode : ShardGridState → ShardGridState
exit_relocation_mode s = record s {
  selected_shard = none;
  relocation_mode = false;
  destination_indicators = [];
}

pub calculate_destinations : ShardInfo → List NodeWithShards → ShardGridState → ShardGridState
calculate_destinations shard nodes s = record s {
  destination_indicators = calculate_valid_destinations shard nodes;
}

-- The timer that is known to the store, as the argument of `clearInterval`.
unfoldable pub existing_timer : Option ℕ → List ℕ
existing_timer none = []
existing_timer (some id) = id ∷ []

unfoldable pub start_polling : ℕ → ℕ → ShardGridState → ShardGridState × List ℕ
start_polling id now s = (
  record s { is_polling = true; polling_interval_id = some id; polling_start_time = some now },
  existing_timer s.polling_interval_id,
)

unfoldable pub stop_polling : ShardGridState → ShardGridState × List ℕ
stop_polling s = (
  record s { is_polling = false; polling_interval_id = none; polling_start_time = none },
  existing_timer s.polling_interval_id,
)

pub add_relocating_shard : ShardInfo → ShardGridState → ShardGridState
add_relocating_shard shard s = record s {
  relocating_shards = add (get_shard_key shard) s.relocating_shards;
}

pub remove_relocating_shard : ShardInfo → ShardGridState → ShardGridState
remove_relocating_shard shard s = record s {
  relocating_shards = delete (get_shard_key shard) s.relocating_shards;
}

pub is_shard_relocating : ShardInfo → ShardGridState → Bool
is_shard_relocating shard s = includes s.relocating_shards (get_shard_key shard)

pub data Action : Type 0 where
  set_nodes : List NodeWithShards → Action
  set_indices : List IndexMetadata → Action
  set_unassigned_shards : List ShardInfo → Action
  set_loading : Bool → Action
  set_error : Option String → Action
  cache : List NodeWithShards → List IndexMetadata → List ShardInfo → ℕ → Action
  invalidate : Action
  set_cache_ttl : ℕ → Action
  select_shard : Option ShardInfo → Action
  enter_mode : ShardInfo → Action
  exit_mode : Action
  destinations : ShardInfo → List NodeWithShards → Action
  start : ℕ → ℕ → Action
  stop : Action
  track untrack : ShardInfo → Action
  reset : Action

-- An action's new state, and the timers that it stops.
unfoldable pub perform : Action → ShardGridState → ShardGridState × List ℕ
perform (set_nodes nodes) s = (record s { nodes = nodes }, [])
perform (set_indices indices) s = (record s { indices = indices }, [])
perform (set_unassigned_shards shards) s = (record s { unassigned_shards = shards }, [])
perform (set_loading loading) s = (record s { loading = loading }, [])
perform (set_error error) s = (record s { error = error }, [])
perform (cache nodes indices shards now) s = (set_cache_data nodes indices shards now s, [])
perform invalidate s = (invalidate_cache s, [])
perform (set_cache_ttl ttl) s = (record s { cache_ttl = ttl }, [])
perform (select_shard shard) s = (record s { selected_shard = shard }, [])
perform (enter_mode shard) s = (enter_relocation_mode shard s, [])
perform exit_mode s = (exit_relocation_mode s, [])
perform (destinations shard nodes) s = (calculate_destinations shard nodes s, [])
perform (start id now) s = start_polling id now s
perform stop s = stop_polling s
perform (track shard) s = (add_relocating_shard shard s, [])
perform (untrack shard) s = (remove_relocating_shard shard s, [])
perform reset s = (initial_state, [])

-- The state after a sequence of actions.
pub run : List Action → ShardGridState → ShardGridState
run [] s = s
run (a ∷ rest) s = run rest (perform a s).0
