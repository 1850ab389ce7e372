-- ===== src/Tests/Data.antt =====
-- A small cluster, for the runs.
use secan.Base.{ℕ, String, Option, none, some, List, [], ◌∷◌, Bool, true, false}
use secan.Api.{NodeInfo, IndexInfo, ShardInfo, NodeWithShards}

abbrev pub node_of : String → String → Option String → List String → Option (List String) → NodeInfo
node_of id name ip roles tags = record {
  cpu_percent = some 12;
  disk_total = 1000;
  disk_used = 400;
  heap_max = 512;
  heap_percent = 50;
  heap_used = 256;
  id = id;
  ip = ip;
  is_master = false;
  is_master_eligible = true;
  load_average = none;
  name = name;
  roles = roles;
  tags = tags;
  uptime = none;
  uptime_millis = none;
  version = none;
}

abbrev pub node_a : NodeInfo
node_a = node_of "a1" "alpha" (some "10.0.0.1") ("data" ∷ []) (some ("zone:eu:1" ∷ []))

abbrev pub node_b : NodeInfo
node_b = node_of "b1" "beta" (some "10.0.0.2") ("master" ∷ "data" ∷ []) none

abbrev pub cluster : List NodeInfo
cluster = node_a ∷ node_b ∷ []

abbrev pub shard_of : String → ℕ → Bool → String → Option String → Option String → ShardInfo
shard_of index shard primary state node target = record {
  docs = 10;
  index = index;
  node = node;
  primary = primary;
  shard = shard;
  state = state;
  store = 2048;
  relocating_node = target;
}

-- A shard that moves from the first node to the second, named by its address.
abbrev pub moving : ShardInfo
moving = shard_of "logs" 0 true "RELOCATING" (some "alpha") (some "10.0.0.2")

abbrev pub replica : ShardInfo
replica = shard_of "logs" 1 false "STARTED" (some "b1") none

abbrev pub lost : ShardInfo
lost = shard_of "logs" 1 true "UNASSIGNED" none none

abbrev pub shards : List ShardInfo
shards = moving ∷ replica ∷ lost ∷ []

abbrev pub index_of_status : String → String → IndexInfo
index_of_status name status = record {
  docs_count = 10;
  health = "green";
  name = name;
  primary_shards = 2;
  replica_shards = 1;
  status = status;
  store_size = 4096;
  uuid = none;
}

abbrev pub indices : List IndexInfo
indices = index_of_status "logs" "open" ∷ index_of_status "old" "close" ∷ []

abbrev pub empty_beta : NodeWithShards
empty_beta = record { info = node_b; shards = [] }

abbrev pub full_alpha : NodeWithShards
full_alpha = record { info = node_a; shards = ("logs", moving ∷ []) ∷ [] }
