-- ===== src/Tests/Visits.antt =====
-- Runs of the navigation, of a relocation, of the chart of an index and of the comparison of snapshots.
use secan.Base.{
  ◌≡◌, refl, String, Option, none, some, List, [], ◌∷◌, ◌++◌, includes, false, true, not, ◌||◌,
  ◌===◌, is_some,
}
use secan.Base.Dict.{Dict, get}
use secan.Changes.{Data, mounted, run_effects}
use secan.Changes.Visits.{
  Visit, on, all_renders, snapshots, reported, all_reported, run_effects-all_reported,
}
use secan.Navigation.{index, Navigation, to_index, to_shard, active_modal, run}
use secan.Navigation.Shown.{show_all, modal_params, active_modal-run}
use secan.Api.{NodeInfo, ShardInfo}
use secan.IndexViz.{calculate_index_viz_layout}
use secan.IndexViz.Known.{all, is_known, calculate_index_viz_layout-is_some}
use secan.Tests.Views.{flat}
use secan.Client.Requests.{Request}
use secan.Relocation.{
  RelocationState, idle, nothing_found, find_destinations, handle_select_for_relocation,
  handle_destination_click, handle_confirm_relocation, relocation_settled,
}
use secan.Relocation.Choice.{find_destinations-keep}
use secan.Relocation.Sending.{request_to, handle_confirm_relocation-sends}
use secan.Tests.Data.{indices, cluster, node_a, shards, moving, shard_of}

abbrev address : Dict String
address = ("search", "logs") ∷ ("nodeModal", "a1") ∷ []

-- A shard is opened over a node, then an index over both, and the index is closed.
abbrev clicks : List Navigation
clicks = to_shard "logs-0" ∷ to_index "logs" (some "settings") ∷ to_shard "logs-0" ∷ []

active_modal-run_example :
    (active_modal (run clicks address) ≡ some (index "logs"))
    × ((k : String) → includes modal_params k ≡ false → get k (run clicks address) ≡ get k address)
unfolding active_modal show_all get
active_modal-run_example = active_modal-run clicks address (refl, (refl, (refl, tt)))

abbrev loading : Data
loading = record { nodes = none; indices = none; now = 1 }

abbrev first_load : Data
first_load = record { nodes = some (node_a ∷ []); indices = some indices; now = 2 }

abbrev second_load : Data
second_load = record { nodes = some cluster; indices = some indices; now = 3 }

abbrev trips : List Visit
trips = record { id = "test"; arrival = first_load; stay = first_load ∷ second_load ∷ [] } ∷ []

run_effects-all_reported_example :
    (run_effects
      (on "prod" (loading ∷ first_load ∷ second_load ∷ []) ++ all_renders trips)
      (mounted "prod")).1
    ≡ reported (snapshots (loading ∷ first_load ∷ second_load ∷ [])) ++ all_reported trips
run_effects-all_reported_example =
    run_effects-all_reported "prod" (loading ∷ first_load ∷ second_load ∷ []) trips (refl, tt)

abbrev moved : RelocationState × Option Request
moved = handle_confirm_relocation (
    handle_destination_click cluster "b1"
      (handle_select_for_relocation cluster (some shards) moving idle))

handle_confirm_relocation-sends_example :
    (d : NodeInfo) × ((d.id === "b1" || d.name === "b1") ≡ true)
    × (moved.1 ≡ request_to cluster shards moving d)
    × (relocation_settled moved.0 ≡ record idle { confirm_opened = not (is_some moved.1) })
handle_confirm_relocation-sends_example =
    handle_confirm_relocation-sends cluster shards moving idle "b1" refl

find_destinations-keep_example :
    ((find_destinations shards moving nothing_found cluster).valid_destinations ≡ "b1" ∷ [])
    × ((find_destinations shards moving nothing_found cluster).source ≡ some node_a)
find_destinations-keep_example = find_destinations-keep shards moving cluster

-- The node of the last shard is not listed.
abbrev scattered : List ShardInfo
scattered = shards ++ shard_of "logs" 2 true "STARTED" (some "c1") none ∷ []

calculate_index_viz_layout-is_some_example :
    is_some (calculate_index_viz_layout flat "logs" cluster scattered)
    ≡ all (λ s. is_known cluster s.node) scattered
calculate_index_viz_layout-is_some_example =
    calculate_index_viz_layout-is_some flat "logs" cluster scattered
