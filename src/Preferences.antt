-- ===== src/Preferences.antt =====
-- frontend/src/contexts/PreferencesContext.tsx with frontend/src/types/preferences.ts: the preferences
-- in the browser's storage. `JSON.parse` and `JSON.stringify` are parameters, `none` is a text that does
-- not parse. A storage that refuses a write keeps what it has.
pub mod Loading
pub mod Storing
use secan.Base.{
  ℕ, suc, decimal, String, Option, none, some, List, [], ◌∷◌, Bool, true, false, ◌===◌, ◌&&◌,
  if◌then◌else◌, given,
}
use secan.Json.{
  Number, whole, is_positive, Value, null, flag, number, text, array, object, Items, nil, cons,
  Fields, end, field, prop, is_object,
}

pub data Theme : Type 0 where
  light dark system : Theme

-- The history and the console states are kept as they are stored.
pub record UserPreferences : Type 0 where
  pub theme : Theme
  pub refresh_interval : Number
  pub last_selected_cluster : Option String
  pub rest_console_history : Items
  pub default_console_width : Number
  pub cluster_console_states : Value

abbrev pub default_preferences : UserPreferences
default_preferences = record {
  theme = system;
  refresh_interval = whole 30000;
  last_selected_cluster = none;
  rest_console_history = nil;
  default_console_width = whole 500;
  cluster_console_states = object end;
}

abbrev pub preferences_storage_key : String
preferences_storage_key = "secan-preferences"

abbrev pub theme_of : Option Value → Theme
theme_of (some (text t)) =
    if t === "light"
    then light
    else if t === "dark"
    then dark
    else if t === "system"
    then system
    else default_preferences.theme
theme_of _ = default_preferences.theme

abbrev pub positive_or : Number → Option Value → Number
positive_or d (some (number n)) = if is_positive n then n else d
positive_or d _ = d

abbrev pub text_of : Option Value → Option String
text_of (some (text t)) = some t
text_of _ = none

abbrev pub items_of : Option Value → Items
items_of (some (array xs)) = xs
items_of _ = default_preferences.rest_console_history

abbrev pub states_of : Option Value → Value
states_of (some (array xs)) = array xs
states_of (some (object fs)) = object fs
states_of _ = default_preferences.cluster_console_states

-- The preferences that are read from a parsed value.
unfoldable pub read_preferences : Value → UserPreferences
read_preferences parsed = record {
  theme = theme_of (prop parsed "theme");
  refresh_interval =
      positive_or default_preferences.refresh_interval (prop parsed "refreshInterval");
  last_selected_cluster = text_of (prop parsed "lastSelectedCluster");
  rest_console_history = items_of (prop parsed "restConsoleHistory");
  default_console_width =
      positive_or default_preferences.default_console_width (prop parsed "defaultConsoleWidth");
  cluster_console_states = states_of (prop parsed "clusterConsoleStates");
}

-- Reading a property of null throws, which is caught.
abbrev pub read_or_default : Option Value → UserPreferences
read_or_default none = default_preferences
read_or_default (some null) = default_preferences
read_or_default (some parsed) = read_preferences parsed

abbrev pub theme_text : Theme → String
theme_text light = "light"
theme_text dark = "dark"
theme_text system = "system"

abbrev pub if_text : String → Option String → Fields → Fields
if_text k none rest = rest
if_text k (some t) rest = field k (text t) rest

-- The object of the preferences; a field that is undefined is not written.
unfoldable pub value_of : UserPreferences → Value
value_of p = object (
    field "theme" (text (theme_text p.theme)) (
      field "refreshInterval" (number p.refresh_interval) (
        if_text "lastSelectedCluster" p.last_selected_cluster (
          field "restConsoleHistory" (array p.rest_console_history) (
            field "defaultConsoleWidth" (number p.default_console_width)
              (field "clusterConsoleStates" p.cluster_console_states end))))))

-- `{ ...prev, [key]: value }`; `none` is `undefined`, with which the field reads as if it were absent.
abbrev pub without : String → Fields → Fields
without k end = end
without k (field j v rest) = if j === k then without k rest else field j v (without k rest)

abbrev pub with_field : String → Value → Fields → Fields
with_field k v end = field k v end
with_field k v (field j w rest) =
    if j === k then field j v rest else field j w (with_field k v rest)

-- What a spread takes of a value: an array's items and a text's characters under their positions.
abbrev positions : ℕ → Items → Fields
positions i nil = end
positions i (cons v xs) = field (decimal i) v (positions (suc i) xs)

abbrev letters : ℕ → String → Fields
letters i String.[] = end
letters i (String.◌∷◌ c s) = field (decimal i) (text (String.◌∷◌ c String.[])) (letters (suc i) s)

abbrev pub fields_of : Value → Fields
fields_of (object fs) = fs
fields_of (array xs) = positions 0 xs
fields_of (text t) = letters 0 t
fields_of _ = end

unfoldable pub update_preference : String → Option Value → Value → Value
update_preference key none prev = object (without key (fields_of prev))
update_preference key (some v) prev = object (with_field key v (fields_of prev))

-- The state of the provider, which an answer of another tab may make any value, and the storage.
pub record Provider : Type 0 where
  pub preferences : Value
  pub stored : Option String

pub data PreferenceAction : Type 0 where
  updates : String → Option Value → PreferenceAction
  resets : PreferenceAction
  storage_event : String → Option String → PreferenceAction

module _ (parse : String → Option Value) (stringify : Value → String) where
  unfoldable pub load_preferences : Option String → UserPreferences
  unfolding read_preferences
  load_preferences stored = elim (given stored) [
    | none ↦ default_preferences
    | some t ↦ read_or_default (parse t)
  ]

  -- The effect that follows each change; `writable` tells whether the storage takes the text.
  unfoldable pub save : Bool → Value → Option String → Option String
  save writable v stored = if writable then some (stringify v) else stored

  unfoldable pub open_provider : Bool → Option String → Provider
  unfolding load_preferences value_of save
  open_provider writable stored =
      let loaded = value_of (load_preferences stored) in
      record { preferences = loaded; stored = save writable loaded stored }

  -- What another tab has written; `none` is a key that was removed. The answer is the state that is set,
  -- if one is.
  unfoldable pub handle_storage : String → Option String → Option Value
  handle_storage key new_value =
      if key === preferences_storage_key
      then elim (given new_value) [ none ↦ none | some t ↦ parse t ]
      else none

  unfoldable pub next_preferences : PreferenceAction → Value → Option Value
  unfolding update_preference handle_storage value_of
  next_preferences (updates key value) state = some (update_preference key value state)
  next_preferences resets state = some (value_of default_preferences)
  next_preferences (storage_event key new_value) state = handle_storage key new_value

  -- The storage as the action finds it: another tab has changed it before the event.
  abbrev pub found : PreferenceAction → Option String → Option String
  found (updates key value) stored = stored
  found resets stored = stored
  found (storage_event key new_value) stored =
      if key === preferences_storage_key then new_value else stored

  -- The effect that saves follows where a state is set.
  unfoldable pub perform : Bool → PreferenceAction → Provider → Provider
  unfolding next_preferences save
  perform writable action s = elim (next_preferences action s.preferences) [
    | none ↦ record s { stored = found action s.stored }
    | some next ↦ record { preferences = next; stored = save writable next (found action s.stored) }
  ]

  unfoldable pub run : List (Bool × PreferenceAction) → Provider → Provider
  unfolding perform
  run [] s = s
  run ((writable, action) ∷ rest) s = run rest (perform writable action s)
