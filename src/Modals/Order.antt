-- ===== src/Modals/Order.antt =====
-- The order of the stack.
use secan.Base.{
  ℕ, zero, suc, ◌-◌, ◌≡◌, refl, ap, ◌≢◌, some, List, [], ◌∷◌, true, false, ◌===◌, ltb,
  if◌then◌else◌, any, find_index, get_elem?, init, length, init-append, last?-append, All, arith,
  eq_iff, Bool-cases, inl, inr, subst,
}
use secan.Modals.{
  ModalData, ModalStackItem, generate_modal_id, shows, ModalState, push_modal, pop_modal, top_modal,
  has_modal_above, ModalAction, empty, run,
}
use secan.Modals.Laws.{DistinctIds, run-empty-IsValid}

All-at :
    (P : ModalStackItem → Type 0) (xs : List ModalStackItem) (i : ℕ) (m : ModalStackItem)
    → All P xs
    → get_elem? xs i ≡ some m
    → P m
All-at P [] i m h e = cc
All-at P (x ∷ xs) zero m h e = let same : x ≡ m = ground arith in subst P same h.0
All-at P (x ∷ xs) (suc i) m h e = All-at P xs i m h.1 e

find_id :
    (xs : List ModalStackItem) (i : ℕ) (m : ModalStackItem)
    → DistinctIds xs
    → get_elem? xs i ≡ some m
    → find_index (λ (x : ModalStackItem). x.id === m.id) xs ≡ some i
unfolding find_index
find_id [] i m d e = cc
find_id (x ∷ xs) zero m d e =
    let same : x ≡ m = ground arith in
    let hit : (x.id === m.id) ≡ true = (eq_iff x.id m.id).1 (ap (λ y. y.id) same) in
    rw (hit, find_index)
find_id (x ∷ xs) (suc i) m d e =
    let differ : x.id ≢ m.id = All-at (λ y. x.id ≢ y.id) xs i m d.0 e in
    let miss : (x.id === m.id) ≡ false = ground (arith, eq_iff x.id m.id) in
    rw (miss, find_index) (rw (find_id xs i m d.1 e))

-- In any state that actions lead to, the id of the modal at a position is reported as having a
-- modal above exactly when the position is not the last.
pub has_modal_above-position :
    (actions : List ModalAction) (i : ℕ) (m : ModalStackItem)
    → let stack = (run actions empty).stack in
      get_elem? stack i ≡ some m → has_modal_above m.id stack ≡ ltb (suc i) (length stack)
unfolding has_modal_above
has_modal_above-position actions i m at =
    rw (find_id (run actions empty).stack i m (run-empty-IsValid actions).ids at, has_modal_above)
      (shift i (length (run actions empty).stack))
  where
    shift : (i n : ℕ) → ltb i (n - 1) ≡ ltb (suc i) n
    shift i n = ground arith

-- A push puts the new modal on top unless an open modal shows the same, and then leaves the stack as
-- it is; a pop after a push that was not refused gives back the stack.
pub push_modal-pop_modal :
    (modal : ModalData) (now : ℕ) (s : ModalState)
    → let refused = any (λ (m : ModalStackItem). shows modal.type modal m.modal) s.stack in
      let pushed = push_modal modal now s in
      (top_modal pushed.stack ≡ (
        if refused
        then top_modal s.stack
        else some (record { modal = modal; id = generate_modal_id now (suc s.counter) })))
      × ((pop_modal pushed).stack ≡ (if refused then init s.stack else s.stack))
unfolding push_modal pop_modal top_modal
push_modal-pop_modal modal now s =
    elim (Bool-cases (any (λ (m : ModalStackItem). shows modal.type modal m.modal) s.stack)) [
      | inl refused ↦ rw refused (refl, refl)
      | inr fresh ↦ rw fresh (last?-append s.stack _, init-append s.stack _)
    ]
