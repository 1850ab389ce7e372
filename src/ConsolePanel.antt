-- ===== src/ConsolePanel.antt =====
-- frontend/src/contexts/ConsolePanelContext.tsx: the console's panel, the state that it saves for
-- each cluster in the preferences, the delayed save of width and scroll position, the change of the
-- cluster, and what modals and the keyboard shortcut do to the panel.
-- Widths are in hundredths of a pixel, so that 80 percent of the window's width is exact. The router
-- gives no empty id, so that an id counts as true exactly when it is there. An action runs with all
-- effects of the one before it done, so the refs hold what the state does; the map of saved states
-- that a delayed or a leaving save starts from is the one of the render it belongs to.
pub mod Saving
pub mod Returning
pub mod Widths
pub mod Hiding
use secan.Base.{
  ℕ, ◌+◌, ◌*◌, String, Option, none, some, List, [], ◌∷◌, Bool, true, false, ◌&&◌, ◌||◌, not,
  if◌then◌else◌, ltb, ◌===◌, or_else,
}
use secan.Base.Dict.{Dict, get, put}

abbrev pub default_console_width : ℕ
default_console_width = 50000

abbrev pub min_console_width : ℕ
min_console_width = 30000

abbrev pub max_console_width_percent : ℕ
max_console_width_percent = 80

pub record ClusterConsoleState : Type 0 where
  pub sticky_mode : Bool
  pub is_detached : Bool
  pub panel_width : ℕ
  pub current_request : Option String
  pub current_response : Option String
  pub show_history : Bool
  pub scroll_position : ℕ

abbrev pub get_default_cluster_state : ClusterConsoleState
get_default_cluster_state = record {
  sticky_mode = false;
  is_detached = false;
  panel_width = default_console_width;
  current_request = none;
  current_response = none;
  show_history = true;
  scroll_position = 0;
}

abbrev min : ℕ → ℕ → ℕ
min a b = if ltb a b then a else b

abbrev pub max : ℕ → ℕ → ℕ
max a b = if ltb a b then b else a

-- `inner_width` is the width of the window in pixels.
unfoldable pub validate_width : ℕ → ℕ → ℕ
validate_width inner_width width =
    let max_width = inner_width * max_console_width_percent in
    max min_console_width (min width max_width)

-- What a delayed save writes.
pub data Write : Type 0 where
  width : ℕ → Write
  scroll : ℕ → Write

abbrev pub written : Write → ClusterConsoleState → ClusterConsoleState
written (width w) c = record c { panel_width = w }
written (scroll p) c = record c { scroll_position = p }

-- The timeout of a delayed save, with the cluster and the saved states of the render that set it.
pub record Timeout : Type 0 where
  pub owner : Option String
  pub states : Dict ClusterConsoleState
  pub write : Write

pub record PanelState : Type 0 where
  pub cluster_id : Option String
  pub current : ClusterConsoleState
  pub is_open : Bool
  pub is_detached : Bool
  pub saved : Dict ClusterConsoleState
  pub timeout : Option Timeout
  pub previous_cluster_id : Option String
  -- The saved states of the render in which the effect on the cluster last ran.
  pub effect_states : Dict ClusterConsoleState
  pub modal_is_open : Bool
  pub modal_active : Bool
  pub was_detached_due_to_modal : Bool
  pub previous_detached : Option Bool
  pub previous_pinned : Option Bool
  pub previous_open : Option Bool
  pub overlay_z_index : Option ℕ

unfoldable pub save_cluster_state :
    Option String → ClusterConsoleState → Dict ClusterConsoleState → Dict ClusterConsoleState
save_cluster_state none c m = m
save_cluster_state (some id) c m = put id c m

abbrev pub state_of : Option String → Dict ClusterConsoleState → ClusterConsoleState
state_of none m = get_default_cluster_state
state_of (some id) m = or_else (get id m) get_default_cluster_state

-- The state that the effect on the cluster loads; only a saved one has its width checked.
unfoldable pub load_cluster_state :
    ℕ → Option String → Dict ClusterConsoleState → ClusterConsoleState
unfolding validate_width
load_cluster_state inner_width none m = get_default_cluster_state
load_cluster_state inner_width (some id) m =
    let c = state_of (some id) m in
    record c { panel_width = validate_width inner_width c.panel_width }

-- The provider when it has mounted and its effects have run.
unfoldable pub open_provider : ℕ → Option String → Dict ClusterConsoleState → PanelState
unfolding load_cluster_state
open_provider inner_width id m = record {
  cluster_id = id;
  current = load_cluster_state inner_width id m;
  is_open = (state_of id m).sticky_mode;
  is_detached = (state_of id m).is_detached;
  saved = m;
  timeout = none;
  previous_cluster_id = id;
  effect_states = m;
  modal_is_open = false;
  modal_active = false;
  was_detached_due_to_modal = false;
  previous_detached = none;
  previous_pinned = none;
  previous_open = none;
  overlay_z_index = none;
}

unfoldable pub toggle_panel : PanelState → PanelState
toggle_panel s = record s { is_open = not s.is_open }

unfoldable pub open_panel : PanelState → PanelState
open_panel s = record s { is_open = true }

unfoldable pub close_panel : PanelState → PanelState
close_panel s = record s { is_open = false }

-- The setters that save at once.
unfoldable pub update_state : ClusterConsoleState → PanelState → PanelState
unfolding save_cluster_state
update_state c s = record s { current = c; saved = save_cluster_state s.cluster_id c s.saved }

unfoldable pub set_sticky : Bool → PanelState → PanelState
unfolding update_state
set_sticky b s = update_state (record s.current { sticky_mode = b }) s

unfoldable pub set_current_request : Option String → PanelState → PanelState
unfolding update_state
set_current_request t s = update_state (record s.current { current_request = t }) s

unfoldable pub set_current_response : Option String → PanelState → PanelState
unfolding update_state
set_current_response t s = update_state (record s.current { current_response = t }) s

unfoldable pub set_show_history : Bool → PanelState → PanelState
unfolding update_state
set_show_history b s = update_state (record s.current { show_history = b }) s

-- Without a cluster the state that is saved stays as it is.
abbrev detached_state : Option String → Bool → ClusterConsoleState → ClusterConsoleState
detached_state none b c = c
detached_state (some id) b c = record c { is_detached = b }

unfoldable pub set_detached : Bool → PanelState → PanelState
unfolding save_cluster_state
set_detached b s =
    let c = detached_state s.cluster_id b s.current in
    record s { is_detached = b; current = c; saved = save_cluster_state s.cluster_id c s.saved }

-- A delayed save: the timeout that was set before is cleared.
unfoldable pub delay_write : Write → PanelState → PanelState
delay_write w s = record s {
  current = written w s.current;
  timeout = some (record { owner = s.cluster_id; states = s.saved; write = w });
}

unfoldable pub set_width : ℕ → ℕ → PanelState → PanelState
unfolding delay_write validate_width
set_width inner_width w s = delay_write (width (validate_width inner_width w)) s

unfoldable pub set_scroll_position : ℕ → PanelState → PanelState
unfolding delay_write
set_scroll_position p s = delay_write (scroll p) s

abbrev pub delayed_save :
    Option String
    → ClusterConsoleState
    → Dict ClusterConsoleState
    → Dict ClusterConsoleState
    → Dict ClusterConsoleState
delayed_save none c states m = m
delayed_save (some id) c states m = put id c states

-- The timeout runs out: it saves what the state is by then, under the cluster that it belongs to.
abbrev pub fired :
    Option Timeout → ClusterConsoleState → Dict ClusterConsoleState → Dict ClusterConsoleState
fired none c m = m
fired (some t) c m = delayed_save t.owner (written t.write c) t.states m

unfoldable pub fire_timeout : PanelState → PanelState
fire_timeout s = record s { saved = fired s.timeout s.current s.saved; timeout = none }

abbrev pub same_id : Option String → Option String → Bool
same_id none none = true
same_id none (some b) = false
same_id (some a) none = false
same_id (some a) (some b) = a === b

abbrev cleaned_states : Option String → PanelState → Dict ClusterConsoleState
cleaned_states none s = s.saved
cleaned_states (some id) s = put id s.current s.effect_states

-- The saved states when the cluster changes: the effect's cleanup starts from the states of its own
-- render, and the effect, which saves after it and replaces all, from those of the present one.
unfoldable pub saved_on_leave : Option String → PanelState → Dict ClusterConsoleState
unfolding save_cluster_state
saved_on_leave new s =
    let cleaned = cleaned_states s.cluster_id s in
    elim s.previous_cluster_id [
      | none ↦ cleaned
      | some previous ↦
          if same_id (some previous) new then cleaned else put previous s.current s.saved
    ]

unfoldable pub switch_cluster : ℕ → Option String → PanelState → PanelState
unfolding saved_on_leave load_cluster_state
switch_cluster inner_width new s = if same_id s.cluster_id new then s else record s {
  cluster_id = new;
  current = load_cluster_state inner_width new s.saved;
  is_detached = (state_of new s.saved).is_detached;
  saved = saved_on_leave new s;
  previous_cluster_id = new;
  effect_states = s.saved;
}

abbrev given_true : Option Bool → Bool
given_true none = false
given_true (some b) = b

unfoldable pub hide_for_modal : PanelState → PanelState
hide_for_modal s = record s {
  modal_is_open = true;
  modal_active = true;
  previous_pinned = some s.current.sticky_mode;
  previous_open = some s.is_open;
  is_open = false;
}

unfoldable pub restore_after_modal : PanelState → PanelState
restore_after_modal s =
    let forced = s.was_detached_due_to_modal in
    record s {
      modal_is_open = false;
      modal_active = false;
      is_detached = if forced then given_true s.previous_detached else s.is_detached;
      is_open =
          if forced
          then given_true s.previous_pinned || (given_true s.previous_open || s.is_open)
          else given_true s.previous_pinned || s.is_open;
      was_detached_due_to_modal = false;
      previous_detached = if forced then none else s.previous_detached;
      overlay_z_index = if forced then none else s.overlay_z_index;
      previous_pinned = none;
      previous_open = none;
    }

-- The manager's `isModalOpen` changes: the effect on it.
unfoldable pub modal_change : Bool → PanelState → PanelState
unfolding hide_for_modal restore_after_modal
modal_change true s =
    if s.modal_is_open
    then s
    else if s.modal_active
    then record s { modal_is_open = true }
    else hide_for_modal s
modal_change false s =
    if s.modal_is_open
    then (if s.modal_active then restore_after_modal s else record s { modal_is_open = false })
    else s

-- The height over the dialogs whose greatest is `top`.
abbrev pub console_z_index : ℕ → ℕ
console_z_index top = max 20000 (max 1000 top + 20)

unfoldable pub force_detached : ℕ → PanelState → PanelState
force_detached top s =
    if s.was_detached_due_to_modal then record s { modal_active = true } else record s {
      modal_active = true;
      previous_detached = some s.is_detached;
      was_detached_due_to_modal = true;
      is_detached = true;
      is_open = true;
      overlay_z_index = some (console_z_index top);
    }

-- The shortcut, where a dialog may be seen in the document and `top` is the greatest height in it.
unfoldable pub press_shortcut : Bool → ℕ → PanelState → PanelState
unfolding force_detached toggle_panel
press_shortcut dialog_visible top s =
    if s.modal_is_open || dialog_visible
    then force_detached top s
    else if s.current.sticky_mode
    then s
    else toggle_panel s

pub data PanelAction : Type 0 where
  toggles opens closes fires : PanelAction
  sets_sticky sets_detached shows_history changes_modal : Bool → PanelAction
  sets_request sets_response switches : Option String → PanelAction
  sets_width scrolls : ℕ → PanelAction
  presses : Bool → ℕ → PanelAction

unfoldable pub perform : ℕ → PanelAction → PanelState → PanelState
perform w toggles s = toggle_panel s
perform w opens s = open_panel s
perform w closes s = close_panel s
perform w fires s = fire_timeout s
perform w (sets_sticky b) s = set_sticky b s
perform w (sets_detached b) s = set_detached b s
perform w (shows_history b) s = set_show_history b s
perform w (changes_modal b) s = modal_change b s
perform w (sets_request t) s = set_current_request t s
perform w (sets_response t) s = set_current_response t s
perform w (switches id) s = switch_cluster w id s
perform w (sets_width n) s = set_width w n s
perform w (scrolls p) s = set_scroll_position p s
perform w (presses seen top) s = press_shortcut seen top s

unfoldable pub run : ℕ → List PanelAction → PanelState → PanelState
unfolding perform
run w [] s = s
run w (a ∷ rest) s = run w rest (perform w a s)
