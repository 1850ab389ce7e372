-- ===== src/Client/Queries.antt =====
-- frontend/src/api/client.ts, the requests that read with a text of parameters or an encoded name, and
-- `proxyRequest`. `encodeURIComponent` and the text of `URLSearchParams` are parameters.
use Prim.Native.String.{[], ◌∷◌}
use mathlib.Core.List.{[], ◌∷◌, ◌++◌}
use secan.Base.{
  ℕ, String, Option, none, some, Bool, true, false, if◌then◌else◌, ◌+++◌, or_else, decimal,
  strip_prefix,
}
use secan.Base.Dict.{Dict, put as put_param}
use secan.Client.Requests.{Method, Json, Request, getting, ShardFilters, shard_params}

module _ (encode_uri_component : String → String) where
  unfoldable pub get_shard_stats : String → ℕ → Request
  get_shard_stats index_name shard_num =
      getting ("shards/" +++ encode_uri_component index_name +++ "/" +++ decimal shard_num) []

  unfoldable pub get_template : String → Request
  get_template name = getting ("index-templates/" +++ encode_uri_component name) []

pub record SettingsOptions : Type 0 where
  pub include_defaults : Bool
  pub flat_settings : Option Bool

abbrev not_flat : Option Bool → Bool
not_flat none = false
not_flat (some b) = if b then false else true

-- `{ ...m, ...params }`.
abbrev spread : Dict String → Dict String → Dict String
spread m [] = m
spread m ((k, v) ∷ params) = spread (put_param k v m) params

-- `search_text` is the text of `URLSearchParams`.
module _ (search_text : Dict String → String) where
  unfoldable pub get_shards : ℕ → ℕ → ShardFilters → Request
  unfolding shard_params
  get_shards page page_size f =
      getting ("shards?" +++ search_text (shard_params page page_size f)) []

  unfoldable pub execute_cat_api : String → Dict String → Request
  execute_cat_api endpoint params =
      getting
        ("_cat/" +++ endpoint +++ "?" +++ search_text (spread (("format", "json") ∷ []) params)) []

  unfoldable pub get_cluster_settings : Option SettingsOptions → Request
  get_cluster_settings none = getting "_cluster/settings" []
  get_cluster_settings (some o) =
      getting
        ("_cluster/settings?"
          +++ search_text (
              (if o.include_defaults then ("include_defaults", "true") ∷ [] else [])
              ++ (if not_flat o.flat_settings then ("flat_settings", "false") ∷ [] else [])))
        []

-- `proxyRequest`: a path without a slash at its start gets one, which is that behind the id.
unfoldable pub proxy_path : String → String
proxy_path path = or_else (strip_prefix "/" path) path

unfoldable pub proxy_request : Method → String → Option Json → Request
unfolding proxy_path
proxy_request method path body = record {
  method = method;
  path = proxy_path path;
  params = [];
  body = body;
}
