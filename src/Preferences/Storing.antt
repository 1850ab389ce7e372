-- ===== src/Preferences/Storing.antt =====
-- frontend/src/contexts/PreferencesContext.tsx: what a reload and another tab make of a change.
use secan.Base.{◌≡◌, refl, ap, ◌∙◌, String, Option, some, List, Bool, true, truthy}
use secan.Json.{Value}
use secan.Preferences.{
  PreferenceAction, storage_event, Provider, preferences_storage_key, read_or_default,
  load_preferences, save, perform, run, handle_storage, next_preferences,
}

module _ (parse : String → Option Value) (stringify : Value → String) where
  module _ (v : Value) (full : truthy (stringify v) ≡ true)
      (parses : parse (stringify v) ≡ some v) where
    load_preferences-stringify :
        load_preferences parse stringify (some (stringify v)) ≡ read_or_default (some v)
    unfolding load_preferences
    load_preferences-stringify = rw (load_preferences, full) (rw parses refl)

    handle_storage-stringify :
        handle_storage parse stringify preferences_storage_key (some (stringify v)) ≡ some v
    unfolding handle_storage
    handle_storage-stringify = rw (handle_storage, full) (rw parses refl)

  module _ (action : PreferenceAction) (s : Provider) (v : Value)
      (sets : next_preferences parse stringify action s.preferences ≡ some v) where
    perform-preferences :
        (writable : Bool) → (perform parse stringify writable action s).preferences ≡ v
    unfolding perform
    perform-preferences writable = rw (perform, sets) refl

    perform-stored : (perform parse stringify true action s).stored ≡ some (stringify v)
    unfolding perform save
    perform-stored = rw (perform, sets) refl

  -- After any actions, the last of which sets a value as the preferences and finds a storage that takes
  -- its text: a reload reads that value, with the checks of a load, and another tab that hears of the
  -- text has exactly that value, without them. The text is not empty and parses to the value.
  pub perform-reload :
      (actions : List (Bool × PreferenceAction)) (action : PreferenceAction) (s other : Provider)
      (writable : Bool) (v : Value)
      → next_preferences parse stringify action (run parse stringify actions s).preferences ≡ some v
      → truthy (stringify v) ≡ true
      → parse (stringify v) ≡ some v
      → let after = perform parse stringify true action (run parse stringify actions s) in
        (load_preferences parse stringify after.stored ≡ read_or_default (some v))
        × ((perform parse stringify writable
              (storage_event preferences_storage_key after.stored)
              other).preferences
            ≡ v)
  unfolding next_preferences
  perform-reload actions action s other writable v sets full parses =
      let stored = perform-stored action (run parse stringify actions s) v sets in
      (
        ap (load_preferences parse stringify) stored ∙ load_preferences-stringify v full parses,
        perform-preferences
            (storage_event preferences_storage_key
              (perform parse stringify true action (run parse stringify actions s)).stored)
            other v
            (ap (handle_storage parse stringify preferences_storage_key) stored
              ∙ handle_storage-stringify v full parses)
            writable,
      )
