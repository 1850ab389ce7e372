-- ===== src/Client/Commands.antt =====
-- frontend/src/api/client.ts, the requests that change indices, shards and tasks: the method, the
-- address behind the cluster's id, and the body of each.
use Prim.Native.String.{[], ◌∷◌}
use mathlib.Core.List.{[], ◌∷◌}
use secan.Base.{
  ℕ, String, Option, none, some, List, Bool, true, false, if◌then◌else◌, ◌+++◌, decimal, join, ◌==◌,
}
use secan.Client.Requests.{
  Json, text, flag, number, object, end, field, Request, posting, putting, deleting,
}

unfoldable pub open_index : String → Request
open_index index_name = posting (index_name +++ "/_open") none

unfoldable pub close_index : String → Request
close_index index_name = posting (index_name +++ "/_close") none

unfoldable pub delete_index : String → Request
delete_index index_name = deleting index_name

-- 0 segments count as none given.
abbrev segments_text : Option ℕ → String
segments_text none = ""
segments_text (some n) = if n == 0 then "" else "?max_num_segments=" +++ decimal n

unfoldable pub force_merge_index : String → Option ℕ → Request
force_merge_index index_name max_num_segments =
    posting (index_name +++ "/_forcemerge" +++ segments_text max_num_segments) none

unfoldable pub clear_cache_index : String → Request
clear_cache_index index_name = posting (index_name +++ "/_cache/clear") none

unfoldable pub refresh_index : String → Request
refresh_index index_name = posting (index_name +++ "/_refresh") none

unfoldable pub flush_index : String → Request
flush_index index_name = posting (index_name +++ "/_flush") none

-- The operations on several indices; without any the promise resolves and nothing is sent.
abbrev pub unless_empty : List String → (String → Request) → Option Request
unless_empty [] send = none
unless_empty (x ∷ xs) send = some (send (join "," (x ∷ xs)))

unfoldable pub bulk_open_indices : List String → Option Request
bulk_open_indices names = unless_empty names (λ all. posting (all +++ "/_open") none)

unfoldable pub bulk_close_indices : List String → Option Request
bulk_close_indices names = unless_empty names (λ all. posting (all +++ "/_close") none)

unfoldable pub bulk_delete_indices : List String → Option Request
bulk_delete_indices names = unless_empty names (λ all. deleting all)

unfoldable pub bulk_refresh_indices : List String → Option Request
bulk_refresh_indices names = unless_empty names (λ all. posting (all +++ "/_refresh") none)

abbrev write_block : Bool → Json
write_block b =
    object (field "index" (object (field "blocks" (object (field "write" (flag b) end)) end)) end)

unfoldable pub bulk_set_index_read_only : List String → Option Request
bulk_set_index_read_only names =
    unless_empty names (λ all. putting (all +++ "/_settings") (write_block true))

unfoldable pub bulk_set_index_writable : List String → Option Request
bulk_set_index_writable names =
    unless_empty names (λ all. putting (all +++ "/_settings") (write_block false))

unfoldable pub relocate_shard : String → String → ℕ → String → Request
relocate_shard from_node index shard to_node = posting "shards/relocate" (
    some (
      object (
        field "from_node" (text from_node) (
          field "index" (text index)
            (field "shard" (number shard) (field "to_node" (text to_node) end))))))

unfoldable pub cancel_task : String → Request
cancel_task task_id = posting ("tasks/" +++ task_id +++ "/_cancel") none
