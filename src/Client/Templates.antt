-- ===== src/Client/Templates.antt =====
-- frontend/src/api/client.ts, the requests on component templates, on the simulation of templates and
-- on several aliases at once. `encodeURIComponent` is a parameter; objects that the caller passes are
-- kept as texts, and settings and mappings without an entry as `none`.
use secan.Base.{ℕ, String, Option, some, ◌+++◌}
use secan.Client.Requests.{
  raw, object, array, end, field, Items, Request, posting, putting, deleting,
}
use secan.Client.Bodies.{when_raw, when_number}

pub record CreateComponentTemplateRequest : Type 0 where
  pub settings : Option String
  pub mappings : Option String
  pub version : Option ℕ

module _ (encode_uri_component : String → String) where
  abbrev pub component_path : String → String
  component_path name = "component-templates/" +++ encode_uri_component name

  unfoldable pub put_component_template : String → CreateComponentTemplateRequest → Request
  put_component_template name r = putting (component_path name) (
      object (
        field "template"
          (object (when_raw "settings" r.settings (when_raw "mappings" r.mappings end)))
          (when_number "version" r.version end)))

  unfoldable pub delete_component_template : String → Request
  delete_component_template name = deleting (component_path name)

unfoldable pub simulate_template : String → Request
simulate_template body = posting "index-templates/_simulate" (some (raw body))

unfoldable pub bulk_alias_operations : Items → Request
bulk_alias_operations actions =
    posting "_aliases" (some (object (field "actions" (array actions) end)))
