-- ===== src/Modals/Laws.antt =====
-- What holds of the stack after any sequence of actions.
use secan.Base.{
  ℕ, suc, ◌≤◌, ◌≡◌, refl, sym, ◌∙◌, ◌≢◌, List, [], ◌∷◌, ◌++◌, false, ◌+++◌, any, init, All, decimal,
  arith, Bool-cases, inl, inr,
}
use secan.Base.Decimal.{split_last, decimal-Without, decimal-injective}
use secan.Modals.{
  ModalData, ModalStackItem, generate_modal_id, shows, ModalState, push_modal, pop_modal,
  clear_modals, ModalAction, push, pop, clear, perform, empty, run,
}

generate_modal_id-injective : (t u m n : ℕ) → generate_modal_id t m ≡ generate_modal_id u n → m ≡ n
unfolding generate_modal_id
generate_modal_id-injective t u m n e =
    decimal-injective m n
      (split_last "-" ("modal-" +++ decimal t) (decimal m) ("modal-" +++ decimal u) (decimal n)
        (decimal-Without b'-' m (omega arith)) (decimal-Without b'-' n (omega arith)) e).1

-- No modal shows what one below it shows.
abbrev pub NoTwins : List ModalStackItem → Type 0
NoTwins [] = Unit
NoTwins (x ∷ xs) = All (λ y. shows y.modal.type y.modal x.modal ≡ false) xs × NoTwins xs

-- No two modals have one id.
abbrev pub DistinctIds : List ModalStackItem → Type 0
DistinctIds [] = Unit
DistinctIds (x ∷ xs) = All (λ y. x.id ≢ y.id) xs × DistinctIds xs

-- The ids are those of counters that are used up.
abbrev Issued : ℕ → ModalStackItem → Type 0
Issued c x = (t n : ℕ) × (x.id ≡ generate_modal_id t n) × (n ≤ c)

pub record IsValid (s : ModalState) : Type 0 where
  pub twins : NoTwins s.stack
  pub ids : DistinctIds s.stack
  pub issued : All (Issued s.counter) s.stack

All-init : {A : Type 0} (P : A → Type 0) (xs : List A) → All P xs → All P (init xs)
All-init P [] h = tt
All-init P (x ∷ []) h = tt
All-init P (x ∷ (y ∷ ys)) h = (h.0, All-init P (y ∷ ys) h.1)

NoTwins-init : (xs : List ModalStackItem) → NoTwins xs → NoTwins (init xs)
NoTwins-init [] h = tt
NoTwins-init (x ∷ []) h = tt
NoTwins-init (x ∷ (y ∷ ys)) h = (All-init _ (y ∷ ys) h.0, NoTwins-init (y ∷ ys) h.1)

DistinctIds-init : (xs : List ModalStackItem) → DistinctIds xs → DistinctIds (init xs)
DistinctIds-init [] h = tt
DistinctIds-init (x ∷ []) h = tt
DistinctIds-init (x ∷ (y ∷ ys)) h = (All-init _ (y ∷ ys) h.0, DistinctIds-init (y ∷ ys) h.1)

All-snoc :
    {A : Type 0} (P : A → Type 0) (xs : List A) (y : A) → All P xs → P y → All P (xs ++ y ∷ [])
All-snoc P [] y h p = (p, tt)
All-snoc P (x ∷ xs) y h p = (h.0, All-snoc P xs y h.1 p)

All-map :
    {A : Type 0} (P Q : A → Type 0) (xs : List A) → ((x : A) → P x → Q x) → All P xs → All Q xs
All-map P Q [] f h = tt
All-map P Q (x ∷ xs) f h = (f x h.0, All-map P Q xs f h.1)

NoTwins-snoc :
    (xs : List ModalStackItem) (y : ModalStackItem)
    → NoTwins xs
    → any (λ (m : ModalStackItem). shows y.modal.type y.modal m.modal) xs ≡ false
    → NoTwins (xs ++ y ∷ [])
NoTwins-snoc [] y h fresh = (tt, tt)
NoTwins-snoc (x ∷ xs) y h fresh =
    (All-snoc _ xs y h.0 (ground arith), NoTwins-snoc xs y h.1 (ground arith))

DistinctIds-snoc :
    (xs : List ModalStackItem) (y : ModalStackItem)
    → DistinctIds xs
    → All (λ x. x.id ≢ y.id) xs
    → DistinctIds (xs ++ y ∷ [])
DistinctIds-snoc [] y h fresh = (tt, tt)
DistinctIds-snoc (x ∷ xs) y h fresh =
    (All-snoc _ xs y h.0 fresh.0, DistinctIds-snoc xs y h.1 fresh.1)

Issued-suc : (c : ℕ) (xs : List ModalStackItem) → All (Issued c) xs → All (Issued (suc c)) xs
Issued-suc c xs h = All-map _ _ xs (λ x (t, n, e, le). (t, n, e, omega arith)) h

fresh_id :
    (c now : ℕ) (xs : List ModalStackItem)
    → All (Issued c) xs
    → All (λ x. x.id ≢ generate_modal_id now (suc c)) xs
fresh_id c now xs h =
    All-map _ _ xs
      (λ x (t, n, e, le) same.
        let clash : n ≡ suc c = generate_modal_id-injective t now n (suc c) (sym e ∙ same) in
        absurd (omega arith))
      h

push_modal-IsValid :
    (modal : ModalData) (now : ℕ) (s : ModalState) → IsValid s → IsValid (push_modal modal now s)
unfolding push_modal
push_modal-IsValid modal now s v =
    elim (Bool-cases (any (λ (m : ModalStackItem). shows modal.type modal m.modal) s.stack)) [
      | inl open_already ↦
          rw (open_already, push_modal)
            (record {
              twins = v.twins;
              ids = v.ids;
              issued = Issued-suc s.counter s.stack v.issued;
            })
      | inr fresh ↦
          let item : ModalStackItem = record {
            modal = modal;
            id = generate_modal_id now (suc s.counter);
          } in
          rw (fresh, push_modal)
            (record {
              twins = NoTwins-snoc s.stack item v.twins fresh;
              ids = DistinctIds-snoc s.stack item v.ids (fresh_id s.counter now s.stack v.issued);
              issued =
                  All-snoc _ s.stack item (Issued-suc s.counter s.stack v.issued)
                    (now, suc s.counter, refl, omega arith);
            })
    ]

perform-IsValid : (a : ModalAction) (s : ModalState) → IsValid s → IsValid (perform a s)
unfolding perform pop_modal clear_modals
perform-IsValid (push modal now) s v = push_modal-IsValid modal now s v
perform-IsValid pop s v = record {
  twins = NoTwins-init s.stack v.twins;
  ids = DistinctIds-init s.stack v.ids;
  issued = All-init _ s.stack v.issued;
}
perform-IsValid clear s v = record { twins = tt; ids = tt; issued = tt }

run-IsValid : (actions : List ModalAction) (s : ModalState) → IsValid s → IsValid (run actions s)
unfolding run
run-IsValid [] s v = v
run-IsValid (a ∷ rest) s v = run-IsValid rest (perform a s) (perform-IsValid a s v)

-- After any sequence of pushes, pops and clearings no open modal shows the index, shard or node of
-- one below it, and no two open modals have one id.
pub run-empty-IsValid : (actions : List ModalAction) → IsValid (run actions empty)
run-empty-IsValid actions = run-IsValid actions empty (record { twins = tt; ids = tt; issued = tt })
