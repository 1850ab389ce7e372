-- ===== src/ConsolePanel/Hiding.antt =====
-- frontend/src/contexts/ConsolePanelContext.tsx: the panel behind modals.
use mathlib.Core.List.{[], ◌∷◌}
use secan.Base.{ℕ, ◌≡◌, some, List, Bool, true, false, ◌||◌, arith, ◌∙◌, subst}
use secan.ConsolePanel.{
  PanelState, PanelAction, run, perform, modal_change, hide_for_modal, restore_after_modal,
  force_detached, press_shortcut,
}
use secan.ConsolePanel.PanelAction.{changes_modal, presses}

-- No modal is open, and the panel is not detached because of one.
pub record IsFree (s : PanelState) : Type 0 where
  pub closed : s.modal_is_open ≡ false
  pub inactive : s.modal_active ≡ false
  pub unforced : s.was_detached_due_to_modal ≡ false

-- A modal opens, the shortcut is pressed a number of times, and the modal closes. A press tells
-- whether a dialog is seen in the document and how high the highest is.
abbrev pub pressing : List (Bool × ℕ) → List PanelAction
pressing [] = changes_modal false ∷ []
pressing ((seen, top) ∷ rest) = presses seen top ∷ pressing rest

abbrev pub behind_modal : List (Bool × ℕ) → List PanelAction
behind_modal list = changes_modal true ∷ pressing list

-- While the modal is open and the panel has been detached because of it.
record IsForced (was_detached : Bool) (s : PanelState) : Type 0 where
  opened : s.modal_is_open ≡ true
  active : s.modal_active ≡ true
  forced : s.was_detached_due_to_modal ≡ true
  detached : s.previous_detached ≡ some was_detached
  shown : s.is_open ≡ true

-- The panel behind the modal: whether it is open, whether it is detached, and all that is as without
-- the modal.
abbrev pub After : Bool → Bool → PanelState → PanelState → Type 0
After is_open is_detached s t =
    (t.is_open ≡ is_open)
    × (t.is_detached ≡ is_detached)
    × IsFree t
    × (t.current ≡ s.current)
    × (t.saved ≡ s.saved)

restore-After : (d : Bool) (s : PanelState) → IsForced d s → After true d s (modal_change false s)
unfolding modal_change restore_after_modal
restore-After d s f = ground arith

press-IsForced :
    (d seen : Bool) (top : ℕ) (s : PanelState)
    → IsForced d s
    → IsForced d (press_shortcut seen top s)
unfolding press_shortcut force_detached
press-IsForced d seen top s f = ground arith

press-current :
    (d seen : Bool) (top : ℕ) (s : PanelState)
    → IsForced d s
    → ((press_shortcut seen top s).current ≡ s.current)
      × ((press_shortcut seen top s).saved ≡ s.saved)
unfolding press_shortcut force_detached
press-current d seen top s f = ground arith

pressing-After :
    (w : ℕ) (list : List (Bool × ℕ)) (d : Bool) (s : PanelState)
    → IsForced d s
    → After true d s (run w (pressing list) s)
unfolding run perform
pressing-After w [] d s f = restore-After d s f
pressing-After w ((seen, top) ∷ rest) d s f =
    let (is_open, detached, free, state, saved) =
      pressing-After w rest d (press_shortcut seen top s) (press-IsForced d seen top s f) in
    let (c, m) = press-current d seen top s f in (is_open, detached, free, state ∙ c, saved ∙ m)

hide-IsForced :
    (seen : Bool) (top : ℕ) (s : PanelState)
    → IsFree s
    → IsForced s.is_detached (press_shortcut seen top (modal_change true s))
unfolding modal_change hide_for_modal press_shortcut force_detached
hide-IsForced seen top s f = ground arith

hide-current :
    (seen : Bool) (top : ℕ) (s : PanelState)
    → IsFree s
    → ((press_shortcut seen top (modal_change true s)).current ≡ s.current)
      × ((press_shortcut seen top (modal_change true s)).saved ≡ s.saved)
unfolding modal_change hide_for_modal press_shortcut force_detached
hide-current seen top s f = ground arith

untouched-After :
    (w : ℕ) (s : PanelState)
    → IsFree s
    → After s.current.sticky_mode s.is_detached s (run w (behind_modal []) s)
unfolding run perform modal_change hide_for_modal restore_after_modal
untouched-After w s f = ground arith

pressed-After :
    (w : ℕ) (seen : Bool) (top : ℕ) (list : List (Bool × ℕ)) (s : PanelState)
    → IsFree s
    → After true s.is_detached s (run w (behind_modal ((seen, top) ∷ list)) s)
unfolding run perform
pressed-After w seen top list s f =
    let (is_open, detached, free, state, saved) =
      pressing-After w list s.is_detached _ (hide-IsForced seen top s f) in
    let (c, m) = hide-current seen top s f in (is_open, detached, free, state ∙ c, saved ∙ m)

abbrev pub was_pressed : List (Bool × ℕ) → Bool
was_pressed [] = false
was_pressed (press ∷ rest) = true

-- Where no modal is open, and one opens, the shortcut is pressed any number of times and the modal
-- closes: the panel is open afterwards exactly when it is pinned or the shortcut was pressed, whether
-- or not it was open before; the detached mode, the console's state and what is saved are as they
-- were, and no modal is open.
pub modal-closes :
    (w : ℕ) (list : List (Bool × ℕ)) (s : PanelState)
    → IsFree s
    → After
        (s.current.sticky_mode || was_pressed list)
        s.is_detached
        s
        (run w (behind_modal list) s)
modal-closes w [] s f =
    let e : s.current.sticky_mode ≡ (s.current.sticky_mode || false) = ground arith in
    subst (λ b. After b s.is_detached s (run w (behind_modal []) s)) e (untouched-After w s f)
modal-closes w ((seen, top) ∷ rest) s f =
    let e : true ≡ (s.current.sticky_mode || true) = ground arith in
    subst (λ b. After b s.is_detached s (run w (behind_modal ((seen, top) ∷ rest)) s)) e
      (pressed-After w seen top rest s f)
