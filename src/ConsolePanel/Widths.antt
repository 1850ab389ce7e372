-- ===== src/ConsolePanel/Widths.antt =====
-- frontend/src/contexts/ConsolePanelContext.tsx: the bounds of the panel's width.
use secan.Base.{
  ℕ, ◌*◌, ◌≤◌, ◌≡◌, refl, String, Option, none, some, List, Bool, true, false, ◌⊎◌, inl, inr, arith,
  ◌∙◌, ap, Bool-cases,
}
use mathlib.Core.List.{[], ◌∷◌}
use secan.Base.Dict.{Dict}
use secan.ConsolePanel.{
  ClusterConsoleState, PanelState, PanelAction, min_console_width, default_console_width, max,
  validate_width, load_cluster_state, open_provider, perform, run, toggle_panel, open_panel,
  close_panel, fire_timeout, set_sticky, set_detached, set_show_history, modal_change,
  set_current_request, set_current_response, switch_cluster, set_width, set_scroll_position,
  press_shortcut, update_state, delay_write, hide_for_modal, restore_after_modal, force_detached,
  detached_state, state_of, same_id,
}
use secan.ConsolePanel.PanelAction.{
  toggles, opens, closes, fires, sets_sticky, sets_detached, shows_history, changes_modal,
  sets_request, sets_response, switches, sets_width, scrolls, presses,
}

-- The greatest width in a window of so many pixels: 80 percent of it, and 300 pixels at least.
abbrev pub greatest_width : ℕ → ℕ
greatest_width inner_width = max min_console_width (inner_width * 80)

-- The width of the panel is at least 300 pixels, and at most the greatest one or the default.
pub record IsFitting (inner_width : ℕ) (s : PanelState) : Type 0 where
  pub above : min_console_width ≤ s.current.panel_width
  pub below :
      (s.current.panel_width ≤ greatest_width inner_width)
      ⊎ ((s.cluster_id ≡ none) × (s.current.panel_width ≡ default_console_width))

validate_width_bounds :
    (w n : ℕ) → (min_console_width ≤ validate_width w n) × (validate_width w n ≤ greatest_width w)
unfolding validate_width
validate_width_bounds w n = ground arith

-- The width and the cluster are as they were.
abbrev Keeps : PanelState → PanelState → Type 0
Keeps s t = (t.current.panel_width ≡ s.current.panel_width) × (t.cluster_id ≡ s.cluster_id)

Keeps-IsFitting : (w : ℕ) (s t : PanelState) → Keeps s t → IsFitting w s → IsFitting w t
Keeps-IsFitting w s t (same, at) f = record {
  above = omega (arith, same, f.above);
  below = elim f.below [
    | inl le ↦ inl (omega (arith, same, le))
    | inr (off, default) ↦ inr (at ∙ off, same ∙ default)
  ];
}

modal_change-Keeps : (b : Bool) (s : PanelState) → Keeps s (modal_change b s)
unfolding modal_change hide_for_modal restore_after_modal
modal_change-Keeps true s = ground arith
modal_change-Keeps false s = ground arith

press_shortcut-Keeps : (b : Bool) (n : ℕ) (s : PanelState) → Keeps s (press_shortcut b n s)
unfolding press_shortcut force_detached toggle_panel
press_shortcut-Keeps b n s = ground arith

detached_state-width :
    (id : Option String) (b : Bool) (c : ClusterConsoleState)
    → (detached_state id b c).panel_width ≡ c.panel_width
detached_state-width none b c = refl
detached_state-width (some id) b c = refl

load_cluster_state-IsFitting :
    (w : ℕ) (id : Option String) (m : Dict ClusterConsoleState) (s : PanelState)
    → s.cluster_id ≡ id
    → s.current ≡ load_cluster_state w id m
    → IsFitting w s
unfolding load_cluster_state
load_cluster_state-IsFitting w none m s at loaded =
    let e = ap (λ (c : ClusterConsoleState). c.panel_width) loaded in
    record { above = omega (arith, e); below = inr (at, e) }
load_cluster_state-IsFitting w (some id) m s at loaded =
    let e = ap (λ (c : ClusterConsoleState). c.panel_width) loaded in
    let (lo, hi) = validate_width_bounds w (state_of (some id) m).panel_width in
    record { above = omega (arith, e, lo); below = inl (omega (arith, e, hi)) }

set_width-IsFitting : (w n : ℕ) (s : PanelState) → IsFitting w (set_width w n s)
unfolding set_width delay_write
set_width-IsFitting w n s =
    let (lo, hi) = validate_width_bounds w n in record { above = lo; below = inl hi }

switch_cluster-IsFitting :
    (w : ℕ) (id : Option String) (s : PanelState)
    → IsFitting w s
    → IsFitting w (switch_cluster w id s)
unfolding switch_cluster
switch_cluster-IsFitting w id s f = elim (Bool-cases (same_id s.cluster_id id)) [
  | inl same ↦ rw same f
  | inr other ↦ rw other (load_cluster_state-IsFitting w id s.saved _ refl refl)
]

perform-IsFitting :
    (w : ℕ) (a : PanelAction) (s : PanelState) → IsFitting w s → IsFitting w (perform w a s)
unfolding perform toggle_panel open_panel close_panel fire_timeout set_sticky set_detached
    set_show_history set_current_request set_current_response update_state set_scroll_position
    delay_write
perform-IsFitting w toggles s f = Keeps-IsFitting w s _ (refl, refl) f
perform-IsFitting w opens s f = Keeps-IsFitting w s _ (refl, refl) f
perform-IsFitting w closes s f = Keeps-IsFitting w s _ (refl, refl) f
perform-IsFitting w fires s f = Keeps-IsFitting w s _ (refl, refl) f
perform-IsFitting w (sets_sticky b) s f = Keeps-IsFitting w s _ (refl, refl) f
perform-IsFitting w (sets_detached b) s f =
    Keeps-IsFitting w s _ (detached_state-width s.cluster_id b s.current, refl) f
perform-IsFitting w (shows_history b) s f = Keeps-IsFitting w s _ (refl, refl) f
perform-IsFitting w (changes_modal b) s f = Keeps-IsFitting w s _ (modal_change-Keeps b s) f
perform-IsFitting w (sets_request t) s f = Keeps-IsFitting w s _ (refl, refl) f
perform-IsFitting w (sets_response t) s f = Keeps-IsFitting w s _ (refl, refl) f
perform-IsFitting w (switches id) s f = switch_cluster-IsFitting w id s f
perform-IsFitting w (sets_width n) s f = set_width-IsFitting w n s
perform-IsFitting w (scrolls p) s f = Keeps-IsFitting w s _ (refl, refl) f
perform-IsFitting w (presses b n) s f = Keeps-IsFitting w s _ (press_shortcut-Keeps b n s) f

from-IsFitting :
    (w : ℕ) (actions : List PanelAction) (s : PanelState)
    → IsFitting w s
    → IsFitting w (run w actions s)
unfolding run
from-IsFitting w [] s f = f
from-IsFitting w (a ∷ rest) s f = from-IsFitting w rest _ (perform-IsFitting w a s f)

-- Whatever was saved before and whatever is done, in a window of a fixed width: the panel is at least
-- 300 pixels wide, and at most 80 percent of the window's width, or 300 pixels if that is less; or
-- there is no cluster and it has the default width.
pub run-IsFitting :
    (w : ℕ) (id : Option String) (m : Dict ClusterConsoleState) (actions : List PanelAction)
    → IsFitting w (run w actions (open_provider w id m))
unfolding open_provider
run-IsFitting w id m actions =
    from-IsFitting w actions _ (load_cluster_state-IsFitting w id m _ refl refl)
