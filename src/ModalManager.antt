-- ===== src/ModalManager.antt =====
-- frontend/src/contexts/ModalManagerContext.tsx: how many modals are open, and the height of the
-- overlay that the console's window reads. A registration hands out a function that ends it once;
-- the function is its number, and its flag `closed` says that the number is not under `open_ones`.
pub mod Counting
use secan.Base.{
  ℕ, suc, ◌-◌, ◌==◌, Option, none, some, List, [], ◌∷◌, Bool, true, false, if◌then◌else◌, any, keep,
  not, ltb,
}

pub record ManagerState : Type 0 where
  pub modal_count : ℕ
  pub overlay_z_index : Option ℕ
  pub own_global : Bool
  pub window_z_index : Option ℕ
  pub registrations : ℕ
  pub open_ones : List ℕ

-- The provider when it mounts, with the field of the window as it is.
abbrev pub mounted : Option ℕ → ManagerState
mounted window_z_index = record {
  modal_count = 0;
  overlay_z_index = none;
  own_global = false;
  window_z_index = window_z_index;
  registrations = 0;
  open_ones = [];
}

unfoldable pub open_modal : ManagerState → ManagerState
open_modal s = record s { modal_count = suc s.modal_count }

-- `Math.max(0, c - 1)` is the subtraction that stops at 0.
unfoldable pub close_modal : ManagerState → ManagerState
close_modal s = record s { modal_count = s.modal_count - 1 }

unfoldable pub register_modal : ManagerState → ManagerState
register_modal s = record s {
  modal_count = suc s.modal_count;
  registrations = suc s.registrations;
  open_ones = s.registrations ∷ s.open_ones;
}

-- The function that a registration hands out.
unfoldable pub release : ℕ → ManagerState → ManagerState
release n s =
    if any (λ m. m == n) s.open_ones
    then record s {
      modal_count = s.modal_count - 1;
      open_ones = keep (λ m. not (m == n)) s.open_ones;
    }
    else s

unfoldable pub set_overlay_z_index : Option ℕ → ManagerState → ManagerState
set_overlay_z_index (some z) s = record s {
  overlay_z_index = some z;
  own_global = true;
  window_z_index = some z;
}
set_overlay_z_index none s =
    if s.own_global
    then record s { overlay_z_index = none; own_global = false; window_z_index = none }
    else record s { overlay_z_index = none }

-- The detail of the event `secan:modal-change`; a negative count is 0.
pub record ModalChange : Type 0 where
  pub opens : Bool
  pub closes : Bool
  pub count : Option ℕ
  pub overlay : Option ℕ

abbrev set_count : Option ℕ → ManagerState → ManagerState
set_count none s = s
set_count (some n) s = record s { modal_count = n }

abbrev set_overlay : Option ℕ → ManagerState → ManagerState
set_overlay none s = s
set_overlay (some z) s = set_overlay_z_index (some z) s

unfoldable pub on_external : ModalChange → ManagerState → ManagerState
on_external d s =
    let opened = if d.opens then open_modal s else s in
    let closed = if d.closes then close_modal opened else opened in
    set_overlay d.overlay (set_count d.count closed)

pub data ManagerAction : Type 0 where
  registers : ManagerAction
  releases : ℕ → ManagerAction
  sets_overlay : Option ℕ → ManagerAction

unfoldable pub perform : ManagerAction → ManagerState → ManagerState
perform registers s = register_modal s
perform (releases n) s = release n s
perform (sets_overlay z) s = set_overlay_z_index z s

unfoldable pub run : List ManagerAction → ManagerState → ManagerState
run [] s = s
run (a ∷ rest) s = run rest (perform a s)
