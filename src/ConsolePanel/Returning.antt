-- ===== src/ConsolePanel/Returning.antt =====
-- frontend/src/contexts/ConsolePanelContext.tsx: coming back to a cluster, and a delayed save that
-- outlasts a change of the cluster.
use secan.Base.{
  ℕ, ◌≤◌, ◌≡◌, refl, sym, ap, ◌∙◌, String, Option, none, some, List, true, false, arith, All, subst,
  or_else, ◌≢◌, Bool-cases, inl, inr, eq_iff, ◌===◌,
}
use secan.Base.Dict.{get, get-put}
use secan.ConsolePanel.{
  ClusterConsoleState, PanelState, PanelAction, width, min_console_width, validate_width,
  load_cluster_state, run, get_default_cluster_state, Timeout, delayed_save, fired, written,
  same_id, save_cluster_state, switch_cluster, set_width, fire_timeout, delay_write,
}
use secan.ConsolePanel.Widths.{greatest_width}
use secan.ConsolePanel.Saving.{Spares, Holds, saved_on_leave_lem, run-Holds, avoids}

-- The cluster is shown, and no delayed save is waiting.
pub record IsSettled (id : String) (s : PanelState) : Type 0 where
  pub at : s.cluster_id ≡ some id
  pub before : s.previous_cluster_id ≡ some id
  pub idle : s.timeout ≡ none

validate_width-same :
    (w n : ℕ) → min_console_width ≤ n → n ≤ greatest_width w → validate_width w n ≡ n
unfolding validate_width
validate_width-same w n lo hi = ground arith

same_id-ne : (o p : Option String) → o ≢ p → same_id o p ≡ false
same_id-ne none none h = absurd (h refl)
same_id-ne none (some b) h = refl
same_id-ne (some a) none h = refl
same_id-ne (some a) (some b) h = elim (Bool-cases (a === b)) [
  | inl same ↦ absurd (h (ap some ((eq_iff a b).0 same)))
  | inr other ↦ other
]

leaving-Holds :
    (w : ℕ) (id : String) (other : Option String) (s : PanelState)
    → IsSettled id s
    → other ≢ some id
    → Holds id s.current (switch_cluster w other s)
unfolding switch_cluster save_cluster_state
leaving-Holds w id other s h away =
    let leaves = same_id-ne (some id) other (λ e. away (sym e)) in
    rw (ap (λ o. same_id o other) h.at ∙ leaves) (record {
      elsewhere = same_id-ne other (some id) away;
      in_step = refl;
      stored =
          ap (get id) (saved_on_leave_lem (some id) other s h.at h.before leaves)
          ∙ get-put id id s.current s.saved
          ∙ rw ((eq_iff id id).1 refl) refl;
      waiting = subst (Spares id s.current) (sym h.idle) tt;
    })

-- What a cluster comes back with.
abbrev pub ComesBack : ℕ → String → ClusterConsoleState → PanelState → Type 0
ComesBack w id c t =
    (t.cluster_id ≡ some id)
    × (t.current ≡ record c { panel_width = validate_width w c.panel_width })
    × (t.is_detached ≡ c.is_detached)

switch_cluster-ComesBack :
    (w : ℕ) (id : String) (c : ClusterConsoleState) (s : PanelState)
    → Holds id c s
    → ComesBack w id c (switch_cluster w (some id) s)
unfolding switch_cluster load_cluster_state
switch_cluster-ComesBack w id c s h = rw h.elsewhere (
    let e = ap (λ o. or_else o get_default_cluster_state) h.stored in
    (
      refl,
      ap (λ (d : ClusterConsoleState). record d { panel_width = validate_width w d.panel_width }) e,
      ap (λ (d : ClusterConsoleState). d.is_detached) e,
    ))

-- A cluster's console comes back as it was left. If a cluster is shown, no delayed save is waiting
-- and the panel's width is one that the window allows, then leaving for another cluster or for none,
-- any actions that do not go back, and then going back give the same state of the console, with its
-- request, response, width, scroll position, history and sticky mode, and the detached mode that was
-- saved in it.
pub switch_cluster-back :
    (w : ℕ) (id : String) (other : Option String) (actions : List PanelAction) (s : PanelState)
    → IsSettled id s
    → other ≢ some id
    → All (λ a. avoids id a ≡ true) actions
    → min_console_width ≤ s.current.panel_width
    → s.current.panel_width ≤ greatest_width w
    → (let t = switch_cluster w (some id) (run w actions (switch_cluster w other s)) in
        (t.current ≡ s.current) × (t.is_detached ≡ s.current.is_detached))
switch_cluster-back w id other actions s h away quiet lo hi =
    let left = run-Holds w id s.current actions _ quiet (leaving-Holds w id other s h away) in
    let (at, state, detached) = switch_cluster-ComesBack w id s.current _ left in
    (
      state
          ∙ ap (λ n. record s.current { panel_width = n })
              (validate_width-same w s.current.panel_width lo hi),
      detached,
    )

-- Whatever the state is by then, a timeout saves it under its owner.
fire_timeout-owner :
    (id : String) (t : Timeout) (m : PanelState)
    → m.timeout ≡ some t
    → t.owner ≡ some id
    → get id (fire_timeout m).saved ≡ some (written t.write m.current)
unfolding fire_timeout
fire_timeout-owner id t m waits owns =
    ap (λ o. get id (fired o m.current m.saved)) waits
    ∙ ap (λ o. get id (delayed_save o (written t.write m.current) t.states m.saved)) owns
    ∙ get-put id id (written t.write m.current) t.states
    ∙ rw ((eq_iff id id).1 refl) refl

switch_cluster-timeout :
    (w : ℕ) (new : Option String) (s : PanelState) → (switch_cluster w new s).timeout ≡ s.timeout
unfolding switch_cluster
switch_cluster-timeout w new s = ground arith

switch_cluster-current :
    (w : ℕ) (new : Option String) (s : PanelState)
    → same_id s.cluster_id new ≡ false
    → (switch_cluster w new s).current ≡ load_cluster_state w new s.saved
unfolding switch_cluster
switch_cluster-current w new s h = rw h refl

-- A delayed save that outlasts a change of the cluster: whenever the width is set in one cluster,
-- another is opened, and then the timeout runs out, the state that is saved for the first cluster is
-- the one that the second cluster's console was opened with, with the width that was set.
pub fire_timeout-late :
    (w n : ℕ) (id other : String) (s : PanelState)
    → s.cluster_id ≡ some id
    → some other ≢ some id
    → get id (fire_timeout (switch_cluster w (some other) (set_width w n s))).saved
      ≡ some
          (record (load_cluster_state w (some other) s.saved) { panel_width = validate_width w n })
unfolding set_width delay_write
fire_timeout-late w n id other s at away =
    let set = set_width w n s in
    fire_timeout-owner id
      (record { owner = s.cluster_id; states = s.saved; write = width (validate_width w n) })
      (switch_cluster w (some other) set) (switch_cluster-timeout w (some other) set) at
    ∙ ap (λ c. some (written (width (validate_width w n)) c))
        (switch_cluster-current w (some other) set (
          ap (λ o. same_id o (some other)) at
          ∙ same_id-ne (some id) (some other) (λ e. away (sym e))))
