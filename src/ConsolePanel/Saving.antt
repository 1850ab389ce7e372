-- ===== src/ConsolePanel/Saving.antt =====
-- frontend/src/contexts/ConsolePanelContext.tsx: the state that a cluster's console comes back with,
-- and what a delayed save does to it after the cluster has changed.
use mathlib.Core.List.{[], ◌∷◌}
use secan.Base.{
  ℕ, ◌≡◌, refl, sym, ap, ◌∙◌, subst, String, Option, none, some, List, Bool, true, false, not,
  arith, All, Bool-cases, inl, inr,
}
use secan.Base.Dict.{Dict, get, get-put}
use secan.ConsolePanel.{
  ClusterConsoleState, PanelState, PanelAction, Timeout, Write, perform, run, written, fired,
  delayed_save, same_id, save_cluster_state, saved_on_leave, toggle_panel, open_panel, close_panel,
  fire_timeout, set_sticky, set_detached, set_show_history, modal_change, set_current_request,
  set_current_response, switch_cluster, set_width, set_scroll_position, press_shortcut,
  update_state, delay_write, hide_for_modal, restore_after_modal, force_detached,
}
use secan.ConsolePanel.PanelAction.{
  toggles, opens, closes, fires, sets_sticky, sets_detached, shows_history, changes_modal,
  sets_request, sets_response, switches, sets_width, scrolls, presses,
}

abbrev pub Spares : String → ClusterConsoleState → Option Timeout → Type 0
Spares id c none = Unit
Spares id c (some t) = (same_id t.owner (some id) ≡ false) × (get id t.states ≡ some c)

-- The state `c` is saved for the cluster, which is not the present one, and no timeout undoes it.
pub record Holds (id : String) (c : ClusterConsoleState) (s : PanelState) : Type 0 where
  pub elsewhere : same_id s.cluster_id (some id) ≡ false
  pub in_step : s.previous_cluster_id ≡ s.cluster_id
  pub stored : get id s.saved ≡ some c
  pub waiting : Spares id c s.timeout

get-save_cluster_state :
    (id : String) (o : Option String) (c : ClusterConsoleState) (m : Dict ClusterConsoleState)
    → same_id o (some id) ≡ false
    → get id (save_cluster_state o c m) ≡ get id m
unfolding save_cluster_state
get-save_cluster_state id none c m h = refl
get-save_cluster_state id (some k) c m h = get-put k id c m ∙ rw h refl

get-delayed_save :
    (id : String) (o : Option String) (c d : ClusterConsoleState)
    (states m : Dict ClusterConsoleState)
    → same_id o (some id) ≡ false
    → get id states ≡ some c
    → get id m ≡ some c
    → get id (delayed_save o d states m) ≡ some c
get-delayed_save id none c d states m other kept h = h
get-delayed_save id (some k) c d states m other kept h = get-put k id d states ∙ rw other kept

get-fired :
    (id : String) (c d : ClusterConsoleState) (t : Option Timeout) (m : Dict ClusterConsoleState)
    → Spares id c t
    → get id m ≡ some c
    → get id (fired t d m) ≡ some c
get-fired id c d none m w h = h
get-fired id c d (some t) m (other, kept) h =
    get-delayed_save id t.owner c (written t.write d) t.states m other kept h

-- What a change from one cluster to another saves, where the ref of the cluster is in step.
pub saved_on_leave_lem :
    (o new : Option String) (s : PanelState)
    → s.cluster_id ≡ o
    → s.previous_cluster_id ≡ o
    → same_id o new ≡ false
    → saved_on_leave new s ≡ save_cluster_state o s.current s.saved
unfolding saved_on_leave save_cluster_state
saved_on_leave_lem none new s at before leaves = rw before (rw at refl)
saved_on_leave_lem (some id) new s at before leaves = rw before (rw leaves refl)

switch_cluster-Holds :
    (w : ℕ) (id : String) (c : ClusterConsoleState) (new : Option String) (s : PanelState)
    → same_id new (some id) ≡ false
    → Holds id c s
    → Holds id c (switch_cluster w new s)
unfolding switch_cluster
switch_cluster-Holds w id c new s away h = elim (Bool-cases (same_id s.cluster_id new)) [
  | inl same ↦ rw same h
  | inr other ↦ rw other (record {
    elsewhere = away;
    in_step = refl;
    stored =
        ap (get id) (saved_on_leave_lem s.cluster_id new s refl h.in_step other)
        ∙ get-save_cluster_state id s.cluster_id s.current s.saved h.elsewhere
        ∙ h.stored;
    waiting = h.waiting;
  })
]

-- The parts of the state that `Holds` reads are as they were.
abbrev Leaves : PanelState → PanelState → Type 0
Leaves s t =
    (t.cluster_id ≡ s.cluster_id)
    × (t.previous_cluster_id ≡ s.previous_cluster_id)
    × (t.saved ≡ s.saved)
    × (t.timeout ≡ s.timeout)

Leaves-Holds :
    (id : String) (c : ClusterConsoleState) (s t : PanelState)
    → Leaves s t
    → Holds id c s
    → Holds id c t
Leaves-Holds id c s t (at, before, same, waits) h = record {
  elsewhere = ap (λ o. same_id o (some id)) at ∙ h.elsewhere;
  in_step = before ∙ h.in_step ∙ sym at;
  stored = ap (get id) same ∙ h.stored;
  waiting = subst (Spares id c) (sym waits) h.waiting;
}

modal_change-Leaves : (b : Bool) (s : PanelState) → Leaves s (modal_change b s)
unfolding modal_change hide_for_modal restore_after_modal
modal_change-Leaves true s = ground arith
modal_change-Leaves false s = ground arith

press_shortcut-Leaves : (b : Bool) (n : ℕ) (s : PanelState) → Leaves s (press_shortcut b n s)
unfolding press_shortcut force_detached toggle_panel
press_shortcut-Leaves b n s = ground arith

-- A save at once for the present cluster.
saving-Holds :
    (id : String) (c d : ClusterConsoleState) (s : PanelState) (b : Bool)
    → Holds id c s
    → Holds id c (record s {
      is_detached = b;
      current = d;
      saved = save_cluster_state s.cluster_id d s.saved;
    })
saving-Holds id c d s b h = record {
  elsewhere = h.elsewhere;
  in_step = h.in_step;
  stored = get-save_cluster_state id s.cluster_id d s.saved h.elsewhere ∙ h.stored;
  waiting = h.waiting;
}

delay_write-Holds :
    (id : String) (c : ClusterConsoleState) (x : Write) (s : PanelState)
    → Holds id c s
    → Holds id c (delay_write x s)
unfolding delay_write
delay_write-Holds id c x s h = record {
  elsewhere = h.elsewhere;
  in_step = h.in_step;
  stored = h.stored;
  waiting = (h.elsewhere, h.stored);
}

-- The action does not go to the cluster.
abbrev pub avoids : String → PanelAction → Bool
avoids id (switches o) = not (same_id o (some id))
avoids id _ = true

perform-Holds :
    (w : ℕ) (id : String) (c : ClusterConsoleState) (a : PanelAction) (s : PanelState)
    → avoids id a ≡ true
    → Holds id c s
    → Holds id c (perform w a s)
unfolding perform toggle_panel open_panel close_panel fire_timeout set_sticky set_detached
    set_show_history set_current_request set_current_response update_state set_width
    set_scroll_position
perform-Holds w id c toggles s k h = Leaves-Holds id c s _ (refl, refl, refl, refl) h
perform-Holds w id c opens s k h = Leaves-Holds id c s _ (refl, refl, refl, refl) h
perform-Holds w id c closes s k h = Leaves-Holds id c s _ (refl, refl, refl, refl) h
perform-Holds w id c fires s k h = record {
  elsewhere = h.elsewhere;
  in_step = h.in_step;
  stored = get-fired id c s.current s.timeout s.saved h.waiting h.stored;
  waiting = tt;
}
perform-Holds w id c (sets_sticky b) s k h = saving-Holds id c _ s s.is_detached h
perform-Holds w id c (sets_detached b) s k h = saving-Holds id c _ s b h
perform-Holds w id c (shows_history b) s k h = saving-Holds id c _ s s.is_detached h
perform-Holds w id c (changes_modal b) s k h = Leaves-Holds id c s _ (modal_change-Leaves b s) h
perform-Holds w id c (sets_request t) s k h = saving-Holds id c _ s s.is_detached h
perform-Holds w id c (sets_response t) s k h = saving-Holds id c _ s s.is_detached h
perform-Holds w id c (switches o) s k h = switch_cluster-Holds w id c o s (ground arith) h
perform-Holds w id c (sets_width n) s k h = delay_write-Holds id c _ s h
perform-Holds w id c (scrolls p) s k h = delay_write-Holds id c _ s h
perform-Holds w id c (presses b n) s k h = Leaves-Holds id c s _ (press_shortcut-Leaves b n s) h

pub run-Holds :
    (w : ℕ) (id : String) (c : ClusterConsoleState) (actions : List PanelAction) (s : PanelState)
    → All (λ a. avoids id a ≡ true) actions
    → Holds id c s
    → Holds id c (run w actions s)
unfolding run
run-Holds w id c [] s k h = h
run-Holds w id c (a ∷ rest) s k h = run-Holds w id c rest _ k.1 (perform-Holds w id c a s k.0 h)
