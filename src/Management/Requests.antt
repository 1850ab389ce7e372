-- ===== src/Management/Requests.antt =====
-- frontend/src/hooks/useShardAllocation.ts and frontend/src/pages/ShardManagement.tsx: the requests that
-- go through the proxy of the client.
use secan.Base.{ℕ, String, some}
use secan.Client.Requests.{
  Request, Method, Json, text, number, object, array, field, end, cons, nil,
}
use secan.Client.Queries.{proxy_request}

-- The texts are "all", "primaries", "new_primaries" and "none".
pub data AllocationMode : Type 0 where
  all primaries new_primaries none_at_all : AllocationMode

abbrev pub mode_text : AllocationMode → String
mode_text all = "all"
mode_text primaries = "primaries"
mode_text new_primaries = "new_primaries"
mode_text none_at_all = "none"

abbrev pub transient_setting : String → String → Json
transient_setting name value = object (field "transient" (object (field name (text value) end)) end)

-- `enableAllocation` sends the first mode, `disableAllocation` the one it is given.
unfoldable pub set_allocation : AllocationMode → Request
unfolding proxy_request
set_allocation mode =
    proxy_request Method.put "/_cluster/settings"
      (some (transient_setting "cluster.routing.allocation.enable" (mode_text mode)))

unfoldable pub relocate : String → ℕ → String → String → Request
unfolding proxy_request
relocate index shard from_node to_node =
    let move = object (
      field "index" (text index) (
        field "shard" (number shard)
          (field "from_node" (text from_node) (field "to_node" (text to_node) end)))) in
    proxy_request Method.post "/_cluster/reroute"
      (some (object (field "commands" (array (cons (object (field "move" move end)) nil)) end)))
