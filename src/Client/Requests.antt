-- ===== src/Client/Requests.antt =====
-- frontend/src/api/client.ts, the requests that read: the method, the address behind the cluster's
-- id, and the parameters of each. A parameter that is `undefined` is left out, as axios does.
use Prim.Native.String.{[], ◌∷◌}
use mathlib.Core.List.{[], ◌∷◌, ◌++◌}
use secan.Base.{
  ℕ, String, Option, none, some, List, Bool, true, false, ◌+++◌, given, or_else, truthy, decimal,
  show_bool, join, split, trim, keep, map,
}
use secan.Base.Dict.{Dict}

pub data Method : Type 0 where
  get post put delete : Method

-- A value in the body of a request. `raw` is an object that is passed on, as a text.
mutual
  pub data Json : Type 0 where
    text : String → Json
    texts : List String → Json
    flag : Bool → Json
    number : ℕ → Json
    raw : String → Json
    object : Fields → Json
    array : Items → Json

  pub data Fields : Type 0 where
    end : Fields
    field : String → Json → Fields → Fields

  pub data Items : Type 0 where
    nil : Items
    cons : Json → Items → Items

-- `path` stands behind `/clusters/<id>/`.
pub record Request : Type 0 where
  pub method : Method
  pub path : String
  pub params : Dict String
  pub body : Option Json

-- The address that a request is sent to, and that an error of axios carries.
unfoldable pub url_of : String → Request → String
url_of cluster_id r = "/clusters/" +++ (cluster_id +++ ("/" +++ r.path))

abbrev pub getting : String → Dict String → Request
getting path params = record { method = Method.get; path = path; params = params; body = none }

abbrev pub posting : String → Option Json → Request
posting path body = record { method = Method.post; path = path; params = []; body = body }

abbrev pub putting : String → Json → Request
putting path body = record { method = Method.put; path = path; params = []; body = some body }

abbrev pub deleting : String → Request
deleting path = record { method = Method.delete; path = path; params = []; body = none }

-- A parameter that is set where its value is there.
abbrev pub if_set : String → Option String → Dict String
if_set name none = []
if_set name (some value) = (name, value) ∷ []

-- A parameter that is set where its value is there and not empty.
abbrev pub if_given : String → Option String → Dict String
if_given name value = if_set name (given value)

-- A parameter of names, where there are any.
abbrev pub if_named : String → List String → Dict String
if_named name [] = []
if_named name (x ∷ xs) = (name, join "," (x ∷ xs)) ∷ []

abbrev pub page_params : ℕ → ℕ → Dict String
page_params page page_size = ("page", decimal page) ∷ (("page_size", decimal page_size) ∷ [])

unfoldable pub get_cluster_health : Request
get_cluster_health = getting "_cluster/health" []

unfoldable pub get_cluster_stats : Request
get_cluster_stats = getting "stats" []

pub record NodeFilters : Type 0 where
  pub search : Option String
  pub roles : Option String
  pub nodes : Option String

-- Roles and nodes are passed on also where they are empty.
unfoldable pub get_nodes : ℕ → ℕ → NodeFilters → Request
get_nodes page page_size f = getting "nodes" (
    page_params page page_size
    ++ (("search", or_else f.search "") ∷ (if_set "roles" f.roles ++ if_set "nodes" f.nodes)))

unfoldable pub get_node_stats : String → Request
get_node_stats node_id = getting ("nodes/" +++ node_id +++ "/stats") []

pub record IndexFilters : Type 0 where
  pub search : Option String
  pub health : List String
  pub status : List String
  pub show_special : Option Bool
  pub affected : Option Bool

unfoldable pub get_indices : ℕ → ℕ → IndexFilters → Request
get_indices page page_size f = getting "indices" (
    page_params page page_size
    ++ (("search", or_else f.search "")
        ∷ (("health", join "," f.health)
            ∷ (("status", join "," f.status)
                ∷ (("show_special", show_bool (or_else f.show_special true))
                    ∷ (("affected", show_bool (or_else f.affected false)) ∷ []))))))

pub record ShardFilters : Type 0 where
  pub hide_special : Option Bool
  pub show_primaries : Option Bool
  pub show_replicas : Option Bool
  pub state : Option String
  pub search : Option String
  pub index : Option String
  pub node : Option String

-- The ids of a list with commas, without white space around them and without empty ones.
unfoldable pub node_ids : String → List String
node_ids node = keep truthy (map trim (split b',' node))

abbrev pub node_param : Option String → Dict String
node_param none = []
node_param (some node) = if_named "node" (node_ids node)

unfoldable pub shard_params : ℕ → ℕ → ShardFilters → Dict String
unfolding node_ids
shard_params page page_size f =
    page_params page page_size
    ++ (("hide_special", show_bool (or_else f.hide_special false))
        ∷ (("show_primaries", show_bool (or_else f.show_primaries true))
            ∷ (("show_replicas", show_bool (or_else f.show_replicas true))
                ∷ (if_given "state" f.state
                    ++ (if_given "search" f.search
                        ++ (if_given "index" f.index ++ node_param (given f.node)))))))

unfoldable pub get_node_shards : String → Request
get_node_shards node_id = getting ("nodes/" +++ node_id +++ "/shards") []

unfoldable pub get_nodes_shard_summary : Request
get_nodes_shard_summary = getting "nodes/shard-summary" []

unfoldable pub get_aliases : Request
get_aliases = getting "_alias" []

-- Composable templates, and the older ones where that request fails.
unfoldable pub get_templates : Request
get_templates = getting "_index_template" []

unfoldable pub get_legacy_templates : Request
get_legacy_templates = getting "_template" []

unfoldable pub get_component_templates : Request
get_component_templates = getting "component-templates" []

-- Also `getIndexAnalyzers`.
unfoldable pub get_index_settings : String → Request
get_index_settings index_name = getting (index_name +++ "/_settings") []

-- Also `getIndexFields`.
unfoldable pub get_index_mappings : String → Request
get_index_mappings index_name = getting (index_name +++ "/_mapping") []

unfoldable pub get_repositories : Request
get_repositories = getting "_snapshot" []

unfoldable pub get_snapshots : String → Request
get_snapshots repository = getting ("_snapshot/" +++ repository +++ "/_all") []

unfoldable pub get_cat_api_help : String → Request
get_cat_api_help endpoint = getting ("_cat/" +++ endpoint +++ "?help") []

unfoldable pub get_index_stats : String → Request
get_index_stats index_name = getting (index_name +++ "/_stats") []

pub record TaskFilters : Type 0 where
  pub types : List String
  pub actions : List String
  pub id_filter : Option String
  pub cancellable : List String

unfoldable pub get_tasks : TaskFilters → Request
get_tasks f = getting "tasks" (
    if_named "type_filter" f.types
    ++ (if_named "action_filter" f.actions
        ++ (if_given "id_filter" f.id_filter ++ if_named "cancellable_filter" f.cancellable)))

unfoldable pub get_task_details : String → Request
get_task_details task_id = getting ("tasks/" +++ task_id) []
