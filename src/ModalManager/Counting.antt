-- ===== src/ModalManager/Counting.antt =====
-- The count of frontend/src/contexts/ModalManagerContext.tsx and its override of the window.
use secan.Base.{
  ℕ, suc, ◌-◌, ◌<◌, ◌==◌, ◌≡◌, refl, sym, ap, ◌∙◌, Option, none, some, List, [], ◌∷◌, true, false,
  any, keep, not, length, All, arith, ==_iff, is_some, Bool-cases, inl, inr,
}
use secan.ModalManager.{
  ManagerState, mounted, register_modal, release, set_overlay_z_index, ManagerAction, registers,
  releases, sets_overlay, perform, run,
}

-- No number stands twice.
abbrev Apart : List ℕ → Type 0
Apart [] = Unit
Apart (x ∷ xs) = (any (λ m. m == x) xs ≡ false) × Apart xs

-- The count is the number of registrations that are not ended, and the provider overrides the
-- window's field exactly while it has set a height itself.
pub record IsCounted (s : ManagerState) : Type 0 where
  pub apart : Apart s.open_ones
  pub issued : All (λ m. m < s.registrations) s.open_ones
  pub counts : s.modal_count ≡ length s.open_ones
  pub owns : s.own_global ≡ is_some s.overlay_z_index

grown : (n : ℕ) (xs : List ℕ) → All (λ m. m < n) xs → All (λ m. m < suc n) xs
grown n [] h = tt
grown n (x ∷ xs) h = (omega (arith, h.0), grown n xs h.1)

fresh : (n : ℕ) (xs : List ℕ) → All (λ m. m < n) xs → any (λ m. m == n) xs ≡ false
fresh n [] h = refl
fresh n (x ∷ xs) h = ground (arith, h.0, fresh n xs h.1)

abbrev others : ℕ → List ℕ → List ℕ
others n = keep (λ m. not (m == n))

All-others : (P : ℕ → Type 0) (n : ℕ) (xs : List ℕ) → All P xs → All P (others n xs)
All-others P n [] h = tt
All-others P n (x ∷ xs) h = elim (Bool-cases (x == n)) [
  | inl same ↦ rw same (All-others P n xs h.1)
  | inr other ↦ rw other (h.0, All-others P n xs h.1)
]

any-others :
    (m n : ℕ) (xs : List ℕ) → any (λ k. k == m) xs ≡ false → any (λ k. k == m) (others n xs) ≡ false
any-others m n [] h = refl
any-others m n (x ∷ xs) h = ground (arith, any-others m n xs)

others-Apart : (n : ℕ) (xs : List ℕ) → Apart xs → Apart (others n xs)
others-Apart n [] h = tt
others-Apart n (x ∷ xs) h = elim (Bool-cases (x == n)) [
  | inl same ↦ rw same (others-Apart n xs h.1)
  | inr other ↦ rw other (any-others x n xs h.0, others-Apart n xs h.1)
]

others-none : (n : ℕ) (xs : List ℕ) → any (λ m. m == n) xs ≡ false → others n xs ≡ xs
others-none n [] h = refl
others-none n (x ∷ xs) h = ground (arith, others-none n xs)

nonempty : (n : ℕ) (xs : List ℕ) → any (λ m. m == n) xs ≡ true → 0 < length xs
nonempty n [] h = cc
nonempty n (x ∷ xs) h = omega arith

length-others :
    (n : ℕ) (xs : List ℕ)
    → Apart xs
    → any (λ m. m == n) xs ≡ true
    → length (others n xs) ≡ length xs - 1
length-others n [] a h = cc
length-others n (x ∷ xs) a h = elim (Bool-cases (x == n)) [
  | inl same ↦
      let e : x ≡ n = (==_iff x n).0 same in
      let gone : any (λ m. m == n) xs ≡ false = ap (λ k. any (λ m. m == k) xs) (sym e) ∙ a.0 in
      rw same (ap length (others-none n xs gone) ∙ omega arith)
  | inr other ↦
      let held : any (λ m. m == n) xs ≡ true = ground arith in
      rw other (omega (arith, length-others n xs a.1 held, nonempty n xs held))
]

perform-IsCounted : (a : ManagerAction) (s : ManagerState) → IsCounted s → IsCounted (perform a s)
unfolding perform register_modal release set_overlay_z_index
perform-IsCounted registers s c = record {
  apart = (fresh s.registrations s.open_ones c.issued, c.apart);
  issued = (omega arith, grown s.registrations s.open_ones c.issued);
  counts = ap suc c.counts;
  owns = c.owns;
}
perform-IsCounted (releases n) s c = elim (Bool-cases (any (λ m. m == n) s.open_ones)) [
  | inl held ↦
      rw (held, release)
        (record {
          apart = others-Apart n s.open_ones c.apart;
          issued = All-others (λ m. m < s.registrations) n s.open_ones c.issued;
          counts = omega (arith, c.counts, length-others n s.open_ones c.apart held);
          owns = c.owns;
        })
  | inr ended ↦ rw (ended, release) c
]
perform-IsCounted (sets_overlay (some z)) s c = record {
  apart = c.apart;
  issued = c.issued;
  counts = c.counts;
  owns = refl;
}
perform-IsCounted (sets_overlay none) s c = elim (Bool-cases s.own_global) [
  | inl own ↦
      rw (own, set_overlay_z_index)
        (record { apart = c.apart; issued = c.issued; counts = c.counts; owns = refl })
  | inr foreign ↦
      rw (foreign, set_overlay_z_index)
        (record { apart = c.apart; issued = c.issued; counts = c.counts; owns = refl })
]

-- After any sequence of registrations, of ends of registrations, repeated or not, and of heights,
-- the count is the number of registrations that are not ended, each of which is listed once, and
-- the provider owns the window's field exactly while a height is set.
pub run-IsCounted :
    (actions : List ManagerAction) (z : Option ℕ) → IsCounted (run actions (mounted z))
unfolding run
run-IsCounted actions z =
    kept actions (mounted z) (record { apart = tt; issued = tt; counts = refl; owns = refl })
  where
    kept : (todo : List ManagerAction) (s : ManagerState) → IsCounted s → IsCounted (run todo s)
    kept [] s c = c
    kept (a ∷ rest) s c = kept rest (perform a s) (perform-IsCounted a s c)
