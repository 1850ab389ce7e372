-- ===== src/Tests/Panels.antt =====
-- The theorems on the console's panel at concrete states.
use mathlib.Core.List.{[], ◌∷◌}
use secan.Base.{◌≡◌, ◌≢◌, refl, String, Option, none, some, List, true, false, arith}
use secan.Base.Dict.{get}
use secan.ConsolePanel.{
  ClusterConsoleState, PanelState, PanelAction, get_default_cluster_state, open_provider, run,
  switch_cluster, set_width, fire_timeout, validate_width, load_cluster_state,
}
use secan.ConsolePanel.PanelAction.{fires, sets_request, sets_width, switches}
use secan.ConsolePanel.Widths.{IsFitting, run-IsFitting}
use secan.ConsolePanel.Returning.{switch_cluster-back, fire_timeout-late}
use secan.ConsolePanel.Hiding.{After, behind_modal, modal-closes}

abbrev asking : ClusterConsoleState
asking = record get_default_cluster_state { current_request = some "GET /"; panel_width = 60000 }

abbrev on_prod : PanelState
on_prod = record {
  cluster_id = some "prod";
  current = asking;
  is_open = true;
  is_detached = false;
  saved = [];
  timeout = none;
  previous_cluster_id = some "prod";
  effect_states = [];
  modal_is_open = false;
  modal_active = false;
  was_detached_due_to_modal = false;
  previous_detached = none;
  previous_pinned = none;
  previous_open = none;
  overlay_z_index = none;
}

abbrev elsewhere : List PanelAction
elsewhere =
    sets_request (some "GET /_cat") ∷ (sets_width 45000 ∷ (switches (some "dev") ∷ (fires ∷ [])))

stage_is_not_prod : ◌≢◌ {A = Option String} (some "stage") (some "prod")
stage_is_not_prod e = cc e

run-IsFitting_example :
    IsFitting 1000 (run 1000 (sets_width 90000 ∷ elsewhere) (open_provider 1000 (some "prod") []))
run-IsFitting_example = run-IsFitting 1000 (some "prod") [] (sets_width 90000 ∷ elsewhere)

switch_cluster-back_example :
    let t =
      switch_cluster 1000
        (some "prod")
        (run 1000 elsewhere (switch_cluster 1000 (some "stage") on_prod)) in
    (t.current ≡ asking) × (t.is_detached ≡ false)
switch_cluster-back_example =
    switch_cluster-back 1000 "prod" (some "stage") elsewhere on_prod
      (record { at = refl; before = refl; idle = refl }) stage_is_not_prod
      (refl, (refl, (refl, (refl, tt)))) (omega arith) (omega arith)

fire_timeout-late_example :
    get "prod"
      (fire_timeout (switch_cluster 1000 (some "stage") (set_width 1000 40000 on_prod))).saved
    ≡ some (record (load_cluster_state 1000 (some "stage") []) {
      panel_width = validate_width 1000 40000;
    })
fire_timeout-late_example =
    fire_timeout-late 1000 40000 "prod" "stage" on_prod refl stage_is_not_prod

modal-closes_example : After true false on_prod (run 1000 (behind_modal ((true, 400) ∷ [])) on_prod)
modal-closes_example =
    modal-closes 1000 ((true, 400) ∷ []) on_prod
      (record { closed = refl; inactive = refl; unforced = refl })
