-- ===== src/Bulk/Selection.antt =====
-- The selection as a set of names.
use secan.Base.{
  ◌≡◌, refl, ap, ◌∙◌, String, List, [], ◌∷◌, Bool, false, not, if◌then◌else◌, ◌===◌, includes,
  arith, eq_iff, Bool-cases, inl, inr,
}
use secan.Base.Keys.{
  Distinct, includes-add, includes-delete, includes-from_array, add-Distinct, delete-Distinct,
  from_array-Distinct,
}
use secan.Bulk.{
  is_selected, toggle_selection, select_all, clear_selection, SelectionAction, toggle, all, clear,
  select,
}

-- The state after a sequence of actions of the user.
pub run : List SelectionAction → List String → List String
run [] selected = selected
run (a ∷ rest) selected = run rest (select a selected)

-- Whether a name is selected after a sequence of actions: a toggle flips its own name only, and a
-- selection of all or none replaces what was selected.
abbrev pub marked : String → Bool → List SelectionAction → Bool
marked name before [] = before
marked name before (toggle n ∷ rest) = marked name (if n === name then not before else before) rest
marked name before (all names ∷ rest) = marked name (includes names name) rest
marked name before (clear ∷ rest) = marked name false rest

toggle-includes :
    (n name : String) (selected : List String)
    → Distinct selected
    → includes (toggle_selection n selected) name
      ≡ (if n === name then not (includes selected name) else includes selected name)
unfolding toggle_selection
toggle-includes n name selected d = elim (Bool-cases (n === name)) [
  | inl same ↦
      let e : n ≡ name = (eq_iff n name).0 same in
      rw e (
        ground (
          arith,
          eq_iff name name,
          includes-add name name selected,
          includes-delete name name selected d,
        ))
  | inr other ↦ ground (arith, includes-add n name selected, includes-delete n name selected d)
]

select-Distinct : (a : SelectionAction) (s : List String) → Distinct s → Distinct (select a s)
unfolding select toggle_selection select_all clear_selection
select-Distinct (toggle n) s d = ground (arith, add-Distinct n s d, delete-Distinct n s d)
select-Distinct (all names) s d = from_array-Distinct [] names tt
select-Distinct clear s d = tt

run-marked :
    (actions : List SelectionAction) (s : List String) (name : String)
    → Distinct s
    → (includes (run actions s) name ≡ marked name (includes s name) actions)
      × Distinct (run actions s)
unfolding run
run-marked [] s name d = (refl, d)
run-marked (toggle n ∷ rest) s name d =
    let (e, d') = run-marked rest (select (toggle n) s) name (select-Distinct (toggle n) s d) in
    (e ∙ ap (λ b. marked name b rest) (unfold select in toggle-includes n name s d), d')
run-marked (all names ∷ rest) s name d =
    let (e, d') = run-marked rest (select (all names) s) name (select-Distinct (all names) s d) in
    (
      e
          ∙ ap (λ b. marked name b rest)
              (unfold select select_all in includes-from_array [] names name),
      d',
    )
run-marked (clear ∷ rest) s name d =
    let (e, d') = run-marked rest (select clear s) name (select-Distinct clear s d) in
    (e ∙ ap (λ b. marked name b rest) (unfold select clear_selection in refl), d')

-- After any sequence of toggles, selections of all and clearings, a name is selected exactly when
-- the sequence marks it, and no name is held twice, so that the size of the set is the number of
-- selected names.
pub is_selected-run :
    (actions : List SelectionAction) (name : String)
    → (is_selected name (run actions clear_selection) ≡ marked name false actions)
      × Distinct (run actions clear_selection)
unfolding is_selected clear_selection
is_selected-run actions name = run-marked actions [] name tt
