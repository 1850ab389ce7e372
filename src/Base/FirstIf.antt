-- ===== src/Base/FirstIf.antt =====
-- Sorting what passes a test to the front sorts the two parts on their own.
use mathlib.Core.Path.{◌≡◌, refl}
use mathlib.Core.Bool.{Bool, true, false, not}
use mathlib.Core.List.{List, [], ◌∷◌, ◌++◌}
use Prim.Native.Nat.{Ordering}
use mathlib.Core.Logic.{inl, inr}
use secan.Base.Tests.{Bool-cases}
use secan.Base.Lists.{All, keep}
use secan.Base.Sort.{sort, All-insert, insert, then_by, first_if, is_gt}

module _ {ℓ} {A : Type ℓ} (test : A → Bool) (d : A → A → Ordering) where
  abbrev pub in_front : A → A → Ordering
  in_front x y = then_by (first_if (test x) (test y)) (d x y)

  insert-behind :
      (x : A) (ys : List A)
      → test x ≡ true
      → All (λ y. test y ≡ false) ys
      → insert in_front x ys ≡ x ∷ ys
  unfolding insert
  insert-behind x [] t h = refl
  insert-behind x (y ∷ ys) t h = rw (t, h.0) refl

  insert-passing :
      (x : A) (xs ys : List A)
      → test x ≡ true
      → All (λ y. test y ≡ true) xs
      → All (λ y. test y ≡ false) ys
      → insert in_front x (xs ++ ys) ≡ insert d x xs ++ ys
  unfolding insert
  insert-passing x [] ys t h k = insert-behind x ys t k
  insert-passing x (y ∷ xs) ys t h k =
      rw (t, h.0, insert-passing x xs ys t h.1 k)
        elim (Bool-cases (is_gt (d x y))) [
          | inl after ↦ rw after refl
          | inr before ↦ rw before refl
        ]

  insert-cong :
      (x : A) (ys : List A)
      → test x ≡ false
      → All (λ y. test y ≡ false) ys
      → insert in_front x ys ≡ insert d x ys
  unfolding insert
  insert-cong x [] t h = refl
  insert-cong x (y ∷ ys) t h = rw (t, h.0, insert-cong x ys t h.1) refl

  insert-failing :
      (x : A) (xs ys : List A)
      → test x ≡ false
      → All (λ y. test y ≡ true) xs
      → All (λ y. test y ≡ false) ys
      → insert in_front x (xs ++ ys) ≡ xs ++ insert d x ys
  unfolding insert
  insert-failing x [] ys t h k = insert-cong x ys t k
  insert-failing x (y ∷ xs) ys t h k = rw (t, h.0, insert-failing x xs ys t h.1 k) refl

  passing : (xs : List A) → All (λ y. test y ≡ true) (sort d (keep test xs))
  unfolding sort
  passing [] = tt
  passing (x ∷ xs) = elim (Bool-cases (test x)) [
    | inl t ↦ rw (t, sort) (All-insert d (λ y. test y ≡ true) x _ t (passing xs))
    | inr t ↦ rw t (passing xs)
  ]

  failing : (xs : List A) → All (λ y. test y ≡ false) (sort d (keep (λ x. not (test x)) xs))
  unfolding sort
  failing [] = tt
  failing (x ∷ xs) = elim (Bool-cases (test x)) [
    | inl t ↦ rw t (failing xs)
    | inr t ↦ rw (t, sort) (All-insert d (λ y. test y ≡ false) x _ t (failing xs))
  ]

  -- The passing ones sorted, and then the failing ones sorted.
  pub sort-keep :
      (xs : List A)
      → sort in_front xs ≡ sort d (keep test xs) ++ sort d (keep (λ x. not (test x)) xs)
  unfolding sort
  sort-keep [] = refl
  sort-keep (x ∷ xs) = elim (Bool-cases (test x)) [
    | inl t ↦ rw (t, sort-keep xs, sort) (insert-passing x _ _ t (passing xs) (failing xs))
    | inr t ↦ rw (t, sort-keep xs, sort) (insert-failing x _ _ t (passing xs) (failing xs))
  ]
