-- ===== src/Preferences/Loading.antt =====
-- frontend/src/contexts/PreferencesContext.tsx: what is loaded from the storage.
use secan.Base.{
  ◌≡◌, refl, String, Option, none, some, true, false, ◌===◌, eq_iff, Bool-cases, Option-cases, inl,
  inr, truthy, given, ap, ◌∙◌,
}
use secan.Json.{
  Number, is_positive, Value, null, flag, number, text, array, object, Fields, end, field, lookup,
  prop, is_object,
}
use secan.Preferences.{
  Theme, light, dark, system, UserPreferences, default_preferences, read_preferences, value_of,
  load_preferences, positive_or, states_of, theme_of, theme_text, read_or_default, if_text, text_of,
  items_of,
}

pub record IsValid (p : UserPreferences) : Type 0 where
  pub interval : is_positive p.refresh_interval ≡ true
  pub width : is_positive p.default_console_width ≡ true
  pub states : is_object p.cluster_console_states ≡ true

positive_or-positive :
    (d : Number) (o : Option Value) → is_positive d ≡ true → is_positive (positive_or d o) ≡ true
positive_or-positive d none h = h
positive_or-positive d (some null) h = h
positive_or-positive d (some (flag b)) h = h
positive_or-positive d (some (number n)) h = elim (Bool-cases (is_positive n)) [
  | inl good ↦ rw good good
  | inr bad ↦ rw bad h
]
positive_or-positive d (some (text t)) h = h
positive_or-positive d (some (array xs)) h = h
positive_or-positive d (some (object fs)) h = h

states_of-object : (o : Option Value) → is_object (states_of o) ≡ true
states_of-object none = refl
states_of-object (some null) = refl
states_of-object (some (flag b)) = refl
states_of-object (some (number n)) = refl
states_of-object (some (text t)) = refl
states_of-object (some (array xs)) = refl
states_of-object (some (object fs)) = refl

read_preferences-IsValid : (v : Value) → IsValid (read_preferences v)
unfolding read_preferences
read_preferences-IsValid v = record {
  interval = positive_or-positive _ (prop v "refreshInterval") refl;
  width = positive_or-positive _ (prop v "defaultConsoleWidth") refl;
  states = states_of-object (prop v "clusterConsoleStates");
}

default_preferences-IsValid : IsValid default_preferences
default_preferences-IsValid = record { interval = refl; width = refl; states = refl }

read_or_default-IsValid : (o : Option Value) → IsValid (read_or_default o)
read_or_default-IsValid none = default_preferences-IsValid
read_or_default-IsValid (some null) = default_preferences-IsValid
read_or_default-IsValid (some (flag b)) = read_preferences-IsValid (flag b)
read_or_default-IsValid (some (number n)) = read_preferences-IsValid (number n)
read_or_default-IsValid (some (text t)) = read_preferences-IsValid (text t)
read_or_default-IsValid (some (array xs)) = read_preferences-IsValid (array xs)
read_or_default-IsValid (some (object fs)) = read_preferences-IsValid (object fs)

-- Whatever the storage has, also nothing or a text that does not parse, the preferences that are
-- loaded have a positive interval, a positive width and console states that are an object.
pub load_preferences-IsValid :
    (parse : String → Option Value) (stringify : Value → String) (stored : Option String)
    → IsValid (load_preferences parse stringify stored)
unfolding load_preferences
load_preferences-IsValid parse stringify stored = elim (Option-cases (given stored)) [
  | inl empty ↦ rw (load_preferences, empty) default_preferences-IsValid
  | inr (t, full) ↦ rw (load_preferences, full) (read_or_default-IsValid (parse t))
]

theme_of-text : (t : Theme) → theme_of (some (text (theme_text t))) ≡ t
theme_of-text light = refl
theme_of-text dark = refl
theme_of-text system = refl

states_of-kept : (v : Value) → is_object v ≡ true → states_of (some v) ≡ v
states_of-kept null h = cc h
states_of-kept (flag b) h = cc h
states_of-kept (number n) h = cc h
states_of-kept (text t) h = cc h
states_of-kept (array xs) h = refl
states_of-kept (object fs) h = refl

positive_or-kept : (d n : Number) → is_positive n ≡ true → positive_or d (some (number n)) ≡ n
positive_or-kept d n h = rw h refl

module _ (o : Option String) (rest : Fields) where
  -- Reading past the field that may be left out, and reading it.
  lookup-if_text : (j k : String) → (j === k) ≡ false → lookup k (if_text j o rest) ≡ lookup k rest
  lookup-if_text j k other = elim (Option-cases o) [
    | inl unset ↦ rw unset refl
    | inr (t, set) ↦ rw set (rw other refl)
  ]

  text_of-if_text : (k : String) → lookup k rest ≡ none → text_of (lookup k (if_text k o rest)) ≡ o
  text_of-if_text k absent = elim (Option-cases o) [
    | inl unset ↦ rw unset (rw absent refl)
    | inr (t, set) ↦ rw set (rw ((eq_iff k k).1 refl) refl)
  ]

read_preferences-value_of : (p : UserPreferences) → IsValid p → read_preferences (value_of p) ≡ p
unfolding read_preferences value_of
read_preferences-value_of p valid =
    let rest : Fields = field "restConsoleHistory" (array p.rest_console_history) (
      field "defaultConsoleWidth" (number p.default_console_width)
        (field "clusterConsoleStates" p.cluster_console_states end)) in
    let past =
      λ (k : String). lookup-if_text p.last_selected_cluster rest "lastSelectedCluster" k in
    λ i. record {
      theme = theme_of-text p.theme i;
      refresh_interval =
          positive_or-kept default_preferences.refresh_interval p.refresh_interval valid.interval i;
      last_selected_cluster =
          text_of-if_text p.last_selected_cluster rest "lastSelectedCluster" refl i;
      rest_console_history = items_of (past "restConsoleHistory" refl i);
      default_console_width =
          (ap (positive_or default_preferences.default_console_width)
                (past "defaultConsoleWidth" refl)
              ∙ positive_or-kept default_preferences.default_console_width p.default_console_width
                  valid.width)
            i;
      cluster_console_states =
          (ap states_of (past "clusterConsoleStates" refl)
              ∙ states_of-kept p.cluster_console_states valid.states)
            i;
    }

-- Valid preferences are loaded again as they were saved, if the text of a value is not empty and
-- parses to the value.
pub load_preferences-value_of :
    (parse : String → Option Value) (stringify : Value → String) (p : UserPreferences)
    → truthy (stringify (value_of p)) ≡ true
    → parse (stringify (value_of p)) ≡ some (value_of p)
    → IsValid p
    → load_preferences parse stringify (some (stringify (value_of p))) ≡ p
unfolding load_preferences value_of
load_preferences-value_of parse stringify p full parses valid =
    rw (load_preferences, full) (rw parses (read_preferences-value_of p valid))
