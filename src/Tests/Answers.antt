-- ===== src/Tests/Answers.antt =====
-- Runs of the preferences and of what the client makes of answers.
use secan.Base.{
  ◌≡◌, refl, String, Option, none, some, List, [], ◌∷◌, true, false, All, join, truthy,
}
use secan.Json.{Value, number, text, object, Fields, end, field, whole}
use secan.Preferences.{
  dark, default_preferences, updates, storage_event, Provider, preferences_storage_key,
  load_preferences, perform, run, update_preference, next_preferences,
}
use secan.Preferences.Loading.{IsValid, load_preferences-IsValid}
use secan.Preferences.Storing.{perform-reload}
use secan.Client.IndexFields.{FieldInfo, get_index_fields}
use secan.Client.IndexFields.Mapping.{IsMapping, Lists, dotted}
use secan.Client.IndexFields.Paths.{get_index_fields-Lists}

-- A parser that parses nothing.
abbrev no_preferences : String → Option Value
no_preferences t = none

load_preferences-IsValid_example : IsValid (load_preferences no_preferences (λ v. "{}") (some "{]"))
load_preferences-IsValid_example = load_preferences-IsValid no_preferences (λ v. "{}") (some "{]")

abbrev narrow : Provider
narrow = record {
  preferences = object (field "defaultConsoleWidth" (number (whole 0)) end);
  stored = none;
}

abbrev themed : Value
themed = object (field "defaultConsoleWidth" (number (whole 0)) (field "theme" (text "dark") end))

-- A width of 0 in the provider: the other tab takes it over, a reload does not.
perform-reload_example :
    (load_preferences (λ t. some themed) (λ v. "saved") (some "saved")
      ≡ record default_preferences { theme = dark })
    × ((perform
          (λ t. some themed)
          (λ v. "saved")
          false
          (storage_event preferences_storage_key (some "saved"))
          narrow).preferences
        ≡ themed)
unfolding perform next_preferences update_preference run load_preferences
perform-reload_example =
    perform-reload (λ t. some themed) (λ v. "saved") [] (updates "theme" (some (text "dark")))
      narrow narrow false themed refl refl refl

abbrev user_mapping : Fields
user_mapping =
    field "user"
      (object (
        field "properties" (object (field "name" (object (field "type" (text "keyword") end)) end))
          end))
      (field "age" (object (field "type" (text "long") end)) end)

abbrev mapped : Value
mapped = object (
    field "users"
      (object (field "mappings" (object (field "properties" (object user_mapping) end)) end)) end)

user_mapping-IsMapping : IsMapping user_mapping
unfolding IsMapping
user_mapping-IsMapping =
    (((λ e. (((λ k. cc k), tt), refl, tt)), tt), refl, (((λ k. cc k), tt), refl, tt))

get_index_fields-Lists_example :
    (infos : List FieldInfo) × (get_index_fields mapped "users" ≡ some infos)
    × Lists "" user_mapping infos
    × ((name : String) (below : List String)
        → All (λ k. truthy k ≡ true) (name ∷ below)
        → dotted "" name below ≡ join "." (name ∷ below))
get_index_fields-Lists_example =
    get_index_fields-Lists mapped "users" user_mapping refl refl user_mapping-IsMapping
