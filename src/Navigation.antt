-- ===== src/Navigation.antt =====
-- frontend/src/hooks/useClusterNavigation.ts: the modals that the search parameters of the address
-- open, and the sections. The parameters are those of `URLSearchParams`, in their order, where a name
-- may stand more than once: `get` reads the first.
pub mod Shown
use secan.Base.{
  String, Option, none, some, List, [], ◌∷◌, Bool, not, keep, given, is_some, or_else,
  if◌then◌else◌, ◌===◌,
}
use secan.Base.Dict.{Dict, get}
use secan.Routes.{build_cluster_section_url, default_section}

-- `delete` takes every parameter of the name, `set` leaves one of it, in the place of the first.
unfoldable pub delete_param : String → Dict String → Dict String
delete_param k [] = []
delete_param k ((j, v) ∷ params) =
    let rest = delete_param k params in if j === k then rest else (j, v) ∷ rest

unfoldable pub set_param : String → String → Dict String → Dict String
unfolding delete_param
set_param k v [] = (k, v) ∷ []
set_param k v ((j, w) ∷ params) =
    let rest = set_param k v params in
    if j === k then (j, v) ∷ delete_param k params else (j, w) ∷ rest

pub data ActiveModal : Type 0 where
  node index shard : String → ActiveModal

abbrev pub first_modal : Option String → Option String → Option String → Option ActiveModal
first_modal (some id) index_name shard_id = some (node id)
first_modal none (some name) shard_id = some (index name)
first_modal none none (some id) = some (shard id)
first_modal none none none = none

unfoldable pub active_modal : Dict String → Option ActiveModal
active_modal params =
    first_modal (given (get "nodeModal" params)) (given (get "indexModal" params))
      (given (get "shardModal" params))

unfoldable pub is_modal_open : Dict String → Bool
unfolding active_modal
is_modal_open params = is_some (active_modal params)

unfoldable pub navigate_to_node : String → Dict String → Dict String
navigate_to_node id params = set_param "nodeModal" id params

abbrev index_tab : Option String → Dict String → Dict String
index_tab none params = delete_param "indexTab" params
index_tab (some section) params = set_param "indexTab" section params

unfoldable pub navigate_to_index : String → Option String → Dict String → Dict String
navigate_to_index name section params =
    delete_param "shardModal"
      (delete_param "nodeModal" (index_tab (given section) (set_param "indexModal" name params)))

unfoldable pub navigate_to_shard : String → Dict String → Dict String
navigate_to_shard id params = set_param "shardModal" id params

unfoldable pub close_modal : Dict String → Dict String
close_modal params =
    delete_param "shardModal"
      (delete_param "indexTab" (delete_param "indexModal" (delete_param "nodeModal" params)))

pub data Navigation : Type 0 where
  to_node : String → Navigation
  to_index : String → Option String → Navigation
  to_shard : String → Navigation
  closes : Navigation

unfoldable pub navigate : Navigation → Dict String → Dict String
unfolding navigate_to_node navigate_to_index navigate_to_shard close_modal
navigate (to_node id) params = navigate_to_node id params
navigate (to_index name section) params = navigate_to_index name section params
navigate (to_shard id) params = navigate_to_shard id params
navigate closes params = close_modal params

-- Navigations in their order.
unfoldable pub run : List Navigation → Dict String → Dict String
unfolding navigate
run [] params = params
run (a ∷ rest) params = run rest (navigate a params)

-- Without the cluster's id a navigation to a section does nothing.
unfoldable pub navigate_to_section : Option String → String → Option String
navigate_to_section cluster_id section = elim (given cluster_id) [
  | none ↦ none
  | some id ↦ some (build_cluster_section_url id (some section))
]

-- The section to show; the default where the address has none.
unfoldable pub get_section_or_default : Option String → String
get_section_or_default section = or_else (given section) default_section
