-- ===== src/Client/Bodies.antt =====
-- frontend/src/api/client.ts, the requests on aliases, templates, texts and snapshots: the method, the
-- address behind the cluster's id, and the body of each. Settings, mappings, aliases and filters that
-- the caller passes are kept as texts.
use Prim.Native.String.{[], ◌∷◌}
use mathlib.Core.List.{[], ◌∷◌}
use secan.Base.{
  ℕ, String, Option, none, some, List, Bool, false, if◌then◌else◌, ◌+++◌, given, or_else, join,
}
use secan.Client.Requests.{
  Json, text, texts, flag, number, raw, object, array, Fields, end, field, Items, nil, cons,
  Request, posting, putting, deleting,
}

-- Fields that are set where their value is there; a text also only where it is not empty.
abbrev pub when_set : String → Option Json → Fields → Fields
when_set name none rest = rest
when_set name (some v) rest = field name v rest

abbrev pub as_text : Option String → Option Json
as_text none = none
as_text (some t) = some (text t)

abbrev pub when_given : String → Option String → Fields → Fields
when_given name t rest = when_set name (as_text (given t)) rest

abbrev pub when_flag : String → Option Bool → Fields → Fields
when_flag name none rest = rest
when_flag name (some b) rest = field name (flag b) rest

abbrev pub when_number : String → Option ℕ → Fields → Fields
when_number name none rest = rest
when_number name (some n) rest = field name (number n) rest

abbrev pub when_raw : String → Option String → Fields → Fields
when_raw name none rest = rest
when_raw name (some t) rest = field name (raw t) rest

abbrev pub when_texts : String → Option (List String) → Fields → Fields
when_texts name none rest = rest
when_texts name (some l) rest = field name (texts l) rest

-- The names in one text, where there are any.
abbrev pub when_named : String → List String → Fields → Fields
when_named name [] rest = rest
when_named name (x ∷ xs) rest = field name (text (join "," (x ∷ xs))) rest

pub record CreateAliasRequest : Type 0 where
  pub alias : String
  pub indices : List String
  pub filter : Option String
  pub routing : Option String
  pub index_routing : Option String
  pub search_routing : Option String
  pub is_write_index : Option Bool

abbrev add_action : CreateAliasRequest → String → Json
add_action r index = object (
    field "add"
      (object (
        field "index" (text index) (
          field "alias" (text r.alias) (
            when_raw "filter" r.filter (
              when_given "routing" r.routing (
                when_given "index_routing" r.index_routing (
                  when_given "search_routing" r.search_routing
                    (when_flag "is_write_index" r.is_write_index end))))))))
      end)

unfoldable pub add_actions : CreateAliasRequest → List String → Items
add_actions r [] = nil
add_actions r (index ∷ rest) = cons (add_action r index) (add_actions r rest)

unfoldable pub create_alias : CreateAliasRequest → Request
unfolding add_actions
create_alias r =
    posting "_aliases" (some (object (field "actions" (array (add_actions r r.indices)) end)))

unfoldable pub delete_alias : String → String → Request
delete_alias index alias = deleting (index +++ "/_alias/" +++ alias)

pub record CreateTemplateRequest : Type 0 where
  pub name : String
  pub index_patterns : List String
  pub composable : Option Bool
  pub priority : Option ℕ
  pub version : Option ℕ
  pub settings : Option String
  pub mappings : Option String
  pub aliases : Option String
  pub order : Option ℕ

abbrev template_fields : CreateTemplateRequest → Fields
template_fields r =
    when_raw "settings" r.settings
      (when_raw "mappings" r.mappings (when_raw "aliases" r.aliases end))

-- The template of a composable one, where it has any part.
abbrev when_fields : String → Fields → Fields
when_fields name end = end
when_fields name (field k v rest) = field name (object (field k v rest)) end

unfoldable pub create_template : CreateTemplateRequest → Request
create_template r =
    if or_else r.composable false
    then putting ("_index_template/" +++ r.name) (
        object (
          field "index_patterns" (texts r.index_patterns) (
            when_number "priority" r.priority
              (when_number "version" r.version (when_fields "template" (template_fields r))))))
    else putting ("_template/" +++ r.name) (
        object (
          field "index_patterns" (texts r.index_patterns)
            (when_number "order" r.order (when_number "version" r.version (template_fields r)))))

unfoldable pub delete_template : String → Bool → Request
delete_template name composable =
    if composable then deleting ("_index_template/" +++ name) else deleting ("_template/" +++ name)

pub record AnalyzeTextRequest : Type 0 where
  pub subject : String
  pub analyzer : Option String
  pub tokenizer : Option String
  pub filter : Option (List String)
  pub char_filter : Option (List String)
  pub index_field : Option String
  pub index : Option String

-- The field and the index, where both are given.
abbrev on_field : Option String → Option String → Option (String × String)
on_field none index = none
on_field (some f) none = none
on_field (some f) (some i) = some (f, i)

unfoldable pub analyze_text : AnalyzeTextRequest → Request
analyze_text r =
    let on = on_field (given r.index_field) (given r.index) in
    let body = λ (rest : Fields). object (
      field "text" (text r.subject) (
        when_given "analyzer" r.analyzer (
          when_given "tokenizer" r.tokenizer
            (when_texts "filter" r.filter (when_texts "char_filter" r.char_filter rest))))) in
    elim on [
      | none ↦ posting "_analyze" (some (body end))
      | some (f, i) ↦ posting (i +++ "/_analyze") (some (body (field "field" (text f) end)))
    ]

unfoldable pub create_repository : String → String → Option String → Request
create_repository name type settings =
    putting ("_snapshot/" +++ name)
      (object (field "type" (text type) (when_raw "settings" settings end)))

unfoldable pub delete_repository : String → Request
delete_repository name = deleting ("_snapshot/" +++ name)

pub record CreateSnapshotRequest : Type 0 where
  pub snapshot : String
  pub indices : List String
  pub ignore_unavailable : Option Bool
  pub include_global_state : Option Bool
  pub partial : Option Bool

unfoldable pub create_snapshot : String → CreateSnapshotRequest → Request
create_snapshot repository r = putting ("_snapshot/" +++ repository +++ "/" +++ r.snapshot) (
    object (
      when_named "indices" r.indices (
        when_flag "ignore_unavailable" r.ignore_unavailable (
          when_flag "include_global_state" r.include_global_state
            (when_flag "partial" r.partial end)))))

unfoldable pub delete_snapshot : String → String → Request
delete_snapshot repository snapshot = deleting ("_snapshot/" +++ repository +++ "/" +++ snapshot)

pub record RestoreSnapshotRequest : Type 0 where
  pub indices : List String
  pub ignore_unavailable : Option Bool
  pub include_global_state : Option Bool
  pub rename_pattern : Option String
  pub rename_replacement : Option String
  pub include_aliases : Option Bool
  pub partial : Option Bool

unfoldable pub restore_snapshot : String → String → RestoreSnapshotRequest → Request
restore_snapshot repository snapshot r =
    posting ("_snapshot/" +++ repository +++ "/" +++ snapshot +++ "/_restore") (
      some (
        object (
          when_named "indices" r.indices (
            when_flag "ignore_unavailable" r.ignore_unavailable (
              when_flag "include_global_state" r.include_global_state (
                when_given "rename_pattern" r.rename_pattern (
                  when_given "rename_replacement" r.rename_replacement (
                    when_flag "include_aliases" r.include_aliases
                      (when_flag "partial" r.partial end)))))))))
