-- ===== src/Changes/Visits.antt =====
-- What is reported while the user goes from cluster to cluster.
use mathlib.Core.List.{append_assoc}
use secan.Base.{
  ◌≡◌, refl, sym, ap, ap₂, ◌∙◌, String, Option, none, some, List, [], ◌∷◌, ◌++◌, true, false,
  if◌then◌else◌, ◌===◌, eq_iff, subst, Bool-cases, Option-cases, inl, inr, map,
}
use secan.Diff.{ClusterState, ClusterChanges, detect_cluster_changes}
use secan.Changes.{
  Data, Tracker, mounted, current_state, has_real_data, compare_state, changes_effect, run_effects,
}

-- The snapshots of the renders that have their data.
abbrev with_some : Option ClusterState → List ClusterState → List ClusterState
with_some none rest = rest
with_some (some c) rest = c ∷ rest

unfoldable pub snapshots : List Data → List ClusterState
snapshots [] = []
snapshots (d ∷ ds) = with_some (current_state d) (snapshots ds)

-- The changes from each snapshot to the next.
unfoldable pub differences : ClusterState → List ClusterState → List (Option ClusterChanges)
differences previous [] = []
differences previous (c ∷ cs) = detect_cluster_changes (some previous) c ∷ differences c cs

-- The same, from the first snapshot on that has nodes and indices.
unfoldable pub reported : List ClusterState → List (Option ClusterChanges)
unfolding differences
reported [] = []
reported (c ∷ cs) = if has_real_data c then differences c cs else reported cs

abbrev pub on : String → List Data → List (String × Data)
on id ds = map (λ d. (id, d)) ds

-- A later cluster: its id, the render in which the id changes, and the renders after it.
pub record Visit : Type 0 where
  pub id : String
  pub arrival : Data
  pub stay : List Data

unfoldable pub all_renders : List Visit → List (String × Data)
all_renders [] = []
all_renders (v ∷ vs) = (v.id, v.arrival) ∷ (on v.id v.stay ++ all_renders vs)

unfoldable pub all_reported : List Visit → List (Option ClusterChanges)
unfolding reported snapshots
all_reported [] = []
all_reported (v ∷ vs) = reported (snapshots v.stay) ++ all_reported vs

-- Each visit is to another cluster than the one before.
abbrev pub Moves : String → List Visit → Type 0
Moves id [] = Unit
Moves id (v ∷ vs) = ((id === v.id) ≡ false) × Moves v.id vs

run_effects-append :
    (xs ys : List (String × Data)) (s : Tracker)
    → (run_effects (xs ++ ys) s).1 ≡ (run_effects xs s).1 ++ (run_effects ys (run_effects xs s).0).1
unfolding run_effects
run_effects-append [] ys s = refl
run_effects-append ((id, d) ∷ xs) ys s =
    ap (λ l. (changes_effect id d s).1 ++ l) (run_effects-append xs ys (changes_effect id d s).0)
    ∙ sym (append_assoc (changes_effect id d s).1 _ _)

compare_state-cluster_id :
    (c : ClusterState) (s : Tracker) → (compare_state c s).0.cluster_id ≡ s.cluster_id
unfolding compare_state
compare_state-cluster_id c s = elim (Bool-cases s.is_initialized) [
  | inl started ↦ elim (Option-cases s.previous_state) [
    | inl missing ↦ rw (started, missing) refl
    | inr (p, there) ↦ rw (started, there) refl
  ]
  | inr fresh ↦ elim (Bool-cases (has_real_data c)) [
    | inl full ↦ rw (fresh, full) refl
    | inr empty ↦ rw (fresh, empty) refl
  ]
]

changes_effect-cluster_id :
    (id : String) (d : Data) (s : Tracker) → (changes_effect id d s).0.cluster_id ≡ id
unfolding changes_effect
changes_effect-cluster_id id d s = elim (Bool-cases (s.cluster_id === id)) [
  | inl same ↦ elim (Option-cases (current_state d)) [
    | inl loading ↦ rw (same, loading) ((eq_iff s.cluster_id id).0 same)
    | inr (c, loaded) ↦
        rw (same, loaded) (compare_state-cluster_id c s ∙ (eq_iff s.cluster_id id).0 same)
  ]
  | inr other ↦ rw other refl
]

run_effects-cluster_id :
    (id : String) (ds : List Data) (s : Tracker)
    → s.cluster_id ≡ id
    → (run_effects (on id ds) s).0.cluster_id ≡ id
unfolding run_effects
run_effects-cluster_id id [] s h = h
run_effects-cluster_id id (d ∷ ds) s h =
    run_effects-cluster_id id ds (changes_effect id d s).0 (changes_effect-cluster_id id d s)

abbrev compared : String → ClusterState → Tracker
compared id p = record { previous_state = some p; is_initialized = true; cluster_id = id }

run_effects-differences :
    (id : String) (p : ClusterState) (ds : List Data)
    → (run_effects (on id ds) (compared id p)).1 ≡ differences p (snapshots ds)
unfolding run_effects changes_effect compare_state snapshots differences
run_effects-differences id p [] = refl
run_effects-differences id p (d ∷ ds) = elim (Option-cases (current_state d)) [
  | inl loading ↦ rw ((eq_iff id id).1 refl, loading) (run_effects-differences id p ds)
  | inr (c, loaded) ↦
      rw ((eq_iff id id).1 refl, loaded)
        (ap (λ l. detect_cluster_changes (some p) c ∷ l) (run_effects-differences id c ds))
]

run_effects-reported :
    (id : String) (ds : List Data)
    → (run_effects (on id ds) (mounted id)).1 ≡ reported (snapshots ds)
unfolding run_effects changes_effect compare_state snapshots reported
run_effects-reported id [] = refl
run_effects-reported id (d ∷ ds) = elim (Option-cases (current_state d)) [
  | inl loading ↦ rw ((eq_iff id id).1 refl, loading) (run_effects-reported id ds)
  | inr (c, loaded) ↦ elim (Bool-cases (has_real_data c)) [
    | inl full ↦ rw ((eq_iff id id).1 refl, loaded) (rw full (run_effects-differences id c ds))
    | inr empty ↦ rw ((eq_iff id id).1 refl, loaded) (rw empty (run_effects-reported id ds))
  ]
]

run_effects-visits :
    (vs : List Visit) (s : Tracker)
    → Moves s.cluster_id vs
    → (run_effects (all_renders vs) s).1 ≡ all_reported vs
unfolding all_renders all_reported run_effects changes_effect
run_effects-visits [] s h = refl
run_effects-visits (v ∷ vs) s h = rw h.0 (
    run_effects-append (on v.id v.stay) (all_renders vs) (mounted v.id)
    ∙ ap₂ (λ a b. a ++ b) (run_effects-reported v.id v.stay)
        (run_effects-visits vs (run_effects (on v.id v.stay) (mounted v.id)).0 (
          subst (λ i. Moves i vs) (sym (run_effects-cluster_id v.id v.stay (mounted v.id) refl))
            h.1)))

-- From a mount on, with any renders of a first cluster and then of others, each another than the one
-- before: what is reported is, cluster by cluster, the changes from each snapshot to the next, from
-- the first snapshot on that has nodes and indices. No two clusters are compared, and the data of
-- the render in which the cluster changes is not part of it.
pub run_effects-all_reported :
    (id : String) (ds : List Data) (vs : List Visit)
    → Moves id vs
    → (run_effects (on id ds ++ all_renders vs) (mounted id)).1
      ≡ reported (snapshots ds) ++ all_reported vs
run_effects-all_reported id ds vs h =
    run_effects-append (on id ds) (all_renders vs) (mounted id)
    ∙ ap₂ (λ a b. a ++ b) (run_effects-reported id ds)
        (run_effects-visits vs (run_effects (on id ds) (mounted id)).0
          (subst (λ i. Moves i vs) (sym (run_effects-cluster_id id ds (mounted id) refl)) h))
