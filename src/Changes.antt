-- ===== src/Changes.antt =====
-- frontend/src/hooks/useClusterChanges.ts: the snapshots of a cluster that the pages compare. An
-- event is a run of the effect, with the cluster's id, the data and the time of that render.
pub mod Visits
use secan.Base.{
  ℕ, String, Option, none, some, List, [], ◌∷◌, ◌++◌, Bool, true, false, not, ◌&&◌, ltb, length,
  if◌then◌else◌, ◌===◌,
}
use secan.Api.{NodeInfo, IndexInfo}
use secan.Diff.{ClusterState, ClusterChanges, detect_cluster_changes}

-- The arguments of a render; `none` is data that is still loading.
pub record Data : Type 0 where
  pub nodes : Option (List NodeInfo)
  pub indices : Option (List IndexInfo)
  pub now : ℕ

-- The refs.
pub record Tracker : Type 0 where
  pub previous_state : Option ClusterState
  pub is_initialized : Bool
  pub cluster_id : String

-- A mount with a cluster's id.
abbrev pub mounted : String → Tracker
mounted id = record { previous_state = none; is_initialized = false; cluster_id = id }

-- What a run of the effect leaves, and the calls of `onChanges`.
abbrev pub Effect : Type 0
Effect = Tracker × List (Option ClusterChanges)

abbrev both : Option (List NodeInfo) → Option (List IndexInfo) → ℕ → Option ClusterState
both none indices now = none
both (some nodes) none now = none
both (some nodes) (some indices) now =
    some (record { nodes = nodes; indices = indices; timestamp = now })

abbrev pub current_state : Data → Option ClusterState
current_state d = both d.nodes d.indices d.now

-- Both lists have an entry.
abbrev pub has_real_data : ClusterState → Bool
has_real_data c = ltb 0 (length c.nodes) && ltb 0 (length c.indices)

unfoldable pub compare_state : ClusterState → Tracker → Effect
compare_state current s =
    if not s.is_initialized
    then if has_real_data current
      then (record s { is_initialized = true; previous_state = some current }, [])
      else (s, [])
    else elim s.previous_state [
      | none ↦ (record s { previous_state = some current }, [])
      | some previous ↦ (
        record s { previous_state = some current },
        detect_cluster_changes (some previous) current ∷ [],
      )
    ]

unfoldable pub changes_effect : String → Data → Tracker → Effect
unfolding compare_state
changes_effect cluster_id d s =
    if not (s.cluster_id === cluster_id)
    then (mounted cluster_id, [])
    else elim (current_state d) [ none ↦ (s, []) | some current ↦ compare_state current s ]

-- Runs of the effect in their order.
unfoldable pub run_effects : List (String × Data) → Tracker → Effect
unfolding changes_effect
run_effects [] s = (s, [])
run_effects ((id, d) ∷ rest) s =
    let (s', calls) = changes_effect id d s in
    let (end, more) = run_effects rest s' in (end, calls ++ more)
