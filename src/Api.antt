-- ===== src/Api.antt =====
-- frontend/src/types/api.ts, with the response types that it takes from
-- frontend/src/types/openapi.generated.ts. `null` and `undefined` are `none`. Numbers are
-- non-negative integers; load averages are in hundredths.
use secan.Base.{ℕ, String, Bool, List, Option}
use secan.Base.Dict.{Dict}

pub record NodeInfo : Type 0 where
  pub cpu_percent : Option ℕ
  pub disk_total : ℕ
  pub disk_used : ℕ
  pub heap_max : ℕ
  pub heap_percent : ℕ
  pub heap_used : ℕ
  pub id : String
  pub ip : Option String
  pub is_master : Bool
  pub is_master_eligible : Bool
  pub load_average : Option (List ℕ)
  pub name : String
  pub roles : List String
  pub tags : Option (List String)
  pub uptime : Option String
  pub uptime_millis : Option ℕ
  pub version : Option String

pub record IndexInfo : Type 0 where
  pub docs_count : ℕ
  pub health : String
  pub name : String
  pub primary_shards : ℕ
  pub replica_shards : ℕ
  pub status : String
  pub store_size : ℕ
  pub uuid : Option String

pub record ShardInfo : Type 0 where
  pub docs : ℕ
  pub index : String
  pub node : Option String
  pub primary : Bool
  pub shard : ℕ
  pub state : String
  pub store : ℕ
  pub relocating_node : Option String

-- A node with its map from index names to shards.
pub record NodeWithShards : Type 0 where
  pub info : NodeInfo
  pub open info use *
  pub shards : Dict (List ShardInfo)

pub record IndexMetadata : Type 0 where
  pub info : IndexInfo
  pub shard_count : ℕ
  pub docs_count : ℕ
  pub size : ℕ

pub record ShardGridData : Type 0 where
  pub nodes : List NodeWithShards
  pub indices : List IndexMetadata
  pub unassigned_shards : List ShardInfo

pub data BulkOperationType : Type 0 where
  open_index close delete refresh set_read_only set_writable : BulkOperationType

pub record BulkOperationValidationResult : Type 0 where
  pub valid_indices : List String
  pub ignored_indices : List String
  pub ignore_reasons : Dict String

pub record TimeRange : Type 0 where
  pub start : ℕ
  pub end : ℕ
  pub label : String
