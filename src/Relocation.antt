-- ===== src/Relocation.antt =====
-- frontend/src/pages/ClusterView.tsx and frontend/src/components/ShardContextMenu.tsx, the relocation
-- of a shard in the topology view: a shard is selected, a destination is clicked, a dialog is
-- confirmed and a request is sent. The refetches and the notifications are left out, and so is the
-- position of the context menu.
pub mod Choice
pub mod Sending
use secan.Base.{
  String, Option, none, some, List, [], ◌∷◌, ◌++◌, Bool, true, false, not, ◌&&◌, ◌||◌, any,
  includes, holds, length, if◌then◌else◌, ◌===◌, ◌==◌,
}
use secan.Api.{NodeInfo, ShardInfo}
use secan.Client.Requests.{Request}
use secan.Client.Commands.{relocate_shard}

pub record RelocationState : Type 0 where
  pub relocation_mode : Bool
  pub valid_destination_nodes : List String
  pub source_node : Option NodeInfo
  pub destination_node : Option NodeInfo
  pub shard : Option ShardInfo
  pub confirm_opened : Bool
  pub in_progress : Bool
  pub menu_shard : Option ShardInfo
  pub menu_opened : Bool

abbrev pub idle : RelocationState
idle = record {
  relocation_mode = false;
  valid_destination_nodes = [];
  source_node = none;
  destination_node = none;
  shard = none;
  confirm_opened = false;
  in_progress = false;
  menu_shard = none;
  menu_opened = false;
}

-- The node is the one of the shard, by its id or its name.
abbrev pub is_at : NodeInfo → ShardInfo → Bool
is_at node shard = holds (λ ref. node.id === ref || node.name === ref) shard.node

abbrev pub has_this_shard : List ShardInfo → ShardInfo → NodeInfo → Bool
has_this_shard shards shard node =
    any (λ (s : ShardInfo). is_at node s && (s.index === shard.index && s.shard == shard.shard))
      shards

pub record Found : Type 0 where
  pub valid_destinations : List String
  pub source : Option NodeInfo

unfoldable pub find_step : List ShardInfo → ShardInfo → Found → NodeInfo → Found
find_step shards shard found node =
    if is_at node shard
    then record found { source = some node }
    else if has_this_shard shards shard node
    then found
    else if not (includes node.roles "data")
    then found
    else record found { valid_destinations = found.valid_destinations ++ node.id ∷ [] }

unfoldable pub find_destinations : List ShardInfo → ShardInfo → Found → List NodeInfo → Found
unfolding find_step
find_destinations shards shard found [] = found
find_destinations shards shard found (node ∷ nodes) =
    find_destinations shards shard (find_step shards shard found node) nodes

abbrev pub nothing_found : Found
nothing_found = record { valid_destinations = []; source = none }

unfoldable pub handle_shard_click : ShardInfo → RelocationState → RelocationState
handle_shard_click shard s = record s { menu_shard = some shard; menu_opened = true }

unfoldable pub handle_menu_close : RelocationState → RelocationState
handle_menu_close s = record s { menu_shard = none; menu_opened = false }

abbrev pub start_with : ShardInfo → Found → RelocationState → RelocationState
start_with shard found s = record s {
  relocation_mode = true;
  valid_destination_nodes = found.valid_destinations;
  source_node = found.source;
  shard = some shard;
}

abbrev pub selected_with : ShardInfo → Found → RelocationState → RelocationState
selected_with shard found s =
    if length found.valid_destinations == 0 then s else start_with shard found s

-- `none` is a list of shards that is not there yet.
unfoldable pub handle_select_for_relocation :
    List NodeInfo → Option (List ShardInfo) → ShardInfo → RelocationState → RelocationState
unfolding handle_menu_close
handle_select_for_relocation nodes none shard s = handle_menu_close s
handle_select_for_relocation nodes (some shards) shard s =
    handle_menu_close (selected_with shard (find_destinations shards shard nothing_found nodes) s)

-- The entry of the context menu, which only some states of a shard enable.
unfoldable pub is_relocation_disabled : ShardInfo → Bool
is_relocation_disabled shard =
    shard.state === "UNASSIGNED" || shard.state === "RELOCATING" || shard.state === "INITIALIZING"

pub get_disabled_reason : ShardInfo → String
get_disabled_reason shard =
    if shard.state === "UNASSIGNED"
    then "Cannot relocate unassigned shards"
    else if shard.state === "RELOCATING"
    then "Shard is already relocating"
    else if shard.state === "INITIALIZING"
    then "Cannot relocate initializing shards"
    else ""

unfoldable pub select_from_menu :
    List NodeInfo → Option (List ShardInfo) → ShardInfo → RelocationState → RelocationState
unfolding is_relocation_disabled handle_select_for_relocation
select_from_menu nodes shards shard s =
    if not (is_relocation_disabled shard)
    then handle_select_for_relocation nodes shards shard s
    else s

unfoldable pub handle_cancel_relocation : RelocationState → RelocationState
handle_cancel_relocation s = record s {
  relocation_mode = false;
  valid_destination_nodes = [];
  source_node = none;
  destination_node = none;
  shard = none;
}

-- `find`: the first node of that id or name.
unfoldable pub find_node : String → List NodeInfo → Option NodeInfo
find_node node_id [] = none
find_node node_id (n ∷ nodes) =
    let rest = find_node node_id nodes in
    if n.id === node_id || n.name === node_id then some n else rest

unfoldable pub handle_destination_click : List NodeInfo → String → RelocationState → RelocationState
unfolding find_node
handle_destination_click nodes node_id s =
    if not s.relocation_mode || not (includes s.valid_destination_nodes node_id)
    then s
    else record s { destination_node = find_node node_id nodes; confirm_opened = true }

abbrev pub request_of : Option ShardInfo → Option NodeInfo → Option NodeInfo → Option Request
request_of none destination source = none
request_of (some shard) none source = none
request_of (some shard) (some destination) none = none
request_of (some shard) (some destination) (some source) =
    some (relocate_shard source.id shard.index shard.shard destination.id)

-- The state while the request is under way, and the request.
unfoldable pub handle_confirm_relocation : RelocationState → RelocationState × Option Request
handle_confirm_relocation s = elim (request_of s.shard s.destination_node s.source_node) [
  | none ↦ (s, none)
  | some request ↦ (record s { confirm_opened = false; in_progress = true }, some request)
]

-- The request has ended, with an answer or an error.
unfoldable pub relocation_settled : RelocationState → RelocationState
relocation_settled s = record s {
  in_progress = false;
  relocation_mode = false;
  valid_destination_nodes = [];
  source_node = none;
  destination_node = none;
  shard = none;
}

unfoldable pub close_confirm : RelocationState → RelocationState
close_confirm s = record s { confirm_opened = false }
