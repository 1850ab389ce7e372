-- ===== src/Base/Sort.antt =====
-- `sort` of an array by a comparison: the stable sort that the language prescribes, by insertion.
-- A comparison answers `gt` where the source returns a positive number.
use mathlib.Core.List.{Perm, Permᴰ, Memᴰ}
use mathlib.Core.List.Permᴰ.{nil, cons, swap, trans}
use mathlib.Core.List.Perm
use Prim.Native.Nat.{Ordering, compare}
use mathlib.Core.Path.{◌≡◌, refl, sym, ap₂, subst, ◌∙◌}
use mathlib.Core.Bool.{Bool, true, false}
use mathlib.Core.List.{List, [], ◌∷◌}
use native.Mathlib.Omega.{arith}
use secan.Base.Tests.{if◌then◌else◌, Bool-cases}
use secan.Base.Lists.{All}
use mathlib.Core.Logic.{inl, inr, ∥∥₁_elim}

abbrev pub is_gt : Ordering → Bool
is_gt Ordering.gt = true
is_gt _ = false

abbrev pub flip : Ordering → Ordering
flip Ordering.lt = Ordering.gt
flip Ordering.eq = Ordering.eq
flip Ordering.gt = Ordering.lt

-- What the language asks of a comparison for the order to be its own.
pub record IsConsistent {ℓ} {A : Type ℓ} (cmp : A → A → Ordering) : Type ℓ where
  pub flips : (x y : A) → cmp y x ≡ flip (cmp x y)
  pub trans :
      (x y z : A) → is_gt (cmp x y) ≡ false → is_gt (cmp y z) ≡ false → is_gt (cmp x z) ≡ false

module _ {ℓ} {A : Type ℓ} (cmp : A → A → Ordering) where
  unfoldable pub insert : A → List A → List A
  insert x [] = x ∷ []
  insert x (y ∷ ys) = if is_gt (cmp x y) then y ∷ insert x ys else x ∷ (y ∷ ys)

  unfoldable pub sort : List A → List A
  sort [] = []
  sort (x ∷ xs) = insert x (sort xs)

  -- Nothing stands after something that it must precede.
  abbrev pub IsSorted : List A → Type 0
  IsSorted [] = Unit
  IsSorted (x ∷ xs) = All (λ y. is_gt (cmp x y) ≡ false) xs × IsSorted xs

  insert-perm : (x : A) (xs : List A) → Perm (insert x xs) (x ∷ xs)
  unfolding insert
  insert-perm x [] = Perm.refl _
  insert-perm x (y ∷ ys) = elim (Bool-cases (is_gt (cmp x y))) [
    | inl after ↦
        rw (after, insert) (Perm.trans (Perm.cons y (insert-perm x ys)) (Perm.swap x y ys))
    | inr before ↦ rw (before, insert) (Perm.refl _)
  ]

  -- Sorting only reorders.
  pub sort-perm : (xs : List A) → Perm (sort xs) xs
  unfolding sort
  sort-perm [] = Perm.refl _
  sort-perm (x ∷ xs) = Perm.trans (insert-perm x (sort xs)) (Perm.cons x (sort-perm xs))

  pub All-insert : (P : A → Type 0) (x : A) (xs : List A) → P x → All P xs → All P (insert x xs)
  unfolding insert
  All-insert P x [] p h = (p, tt)
  All-insert P x (y ∷ ys) p h = elim (Bool-cases (is_gt (cmp x y))) [
    | inl after ↦ rw (after, insert) (h.0, All-insert P x ys p h.1)
    | inr before ↦ rw (before, insert) (p, h)
  ]

  module _ (consistent : IsConsistent cmp) where
    before-All :
        (x y : A) (ys : List A)
        → is_gt (cmp x y) ≡ false
        → All (λ z. is_gt (cmp y z) ≡ false) ys
        → All (λ z. is_gt (cmp x z) ≡ false) ys
    before-All x y [] h a = tt
    before-All x y (z ∷ zs) h a = (consistent.trans x y z h a.0, before-All x y zs h a.1)

    gt-flips : (x y : A) → is_gt (cmp x y) ≡ true → is_gt (cmp y x) ≡ false
    gt-flips x y h = rw (consistent.flips x y) (ground arith)

    insert-IsSorted : (x : A) (xs : List A) → IsSorted xs → IsSorted (insert x xs)
    unfolding insert
    insert-IsSorted x [] s = (tt, tt)
    insert-IsSorted x (y ∷ ys) s = elim (Bool-cases (is_gt (cmp x y))) [
      | inl after ↦
          rw (after, insert)
            (
              All-insert (λ z. is_gt (cmp y z) ≡ false) x ys (gt-flips x y after) s.0,
              insert-IsSorted x ys s.1,
            )
      | inr before ↦ rw (before, insert) ((before, before-All x y ys before s.0), s)
    ]

    pub sort-IsSorted : (xs : List A) → IsSorted (sort xs)
    unfolding sort
    sort-IsSorted [] = tt
    sort-IsSorted (x ∷ xs) = insert-IsSorted x (sort xs) (sort-IsSorted xs)

  module _ (consistent : IsConsistent cmp) where
    insert_comm :
        (x y : A) (zs : List A)
        → (cmp x y ≡ Ordering.eq → x ≡ y)
        → insert x (insert y zs) ≡ insert y (insert x zs)
    unfolding insert
    insert_comm x y [] tie = ground (arith, consistent.flips x y, tie)
    insert_comm x y (z ∷ zs) tie = ground (
      arith,
      consistent.flips x y,
      tie,
      consistent.trans x y z,
      consistent.trans y x z,
      insert_comm x y zs tie,
    )

    module _ {κ} (P : A → Type κ)
        (ties : (x y : A) → P x → P y → cmp x y ≡ Ordering.eq → x ≡ y) where
      All-Permᴰ : {xs ys : List A} → Permᴰ xs ys → All P xs → All P ys
      All-Permᴰ nil h = tt
      All-Permᴰ (cons e p) h = (subst P e h.0, All-Permᴰ p h.1)
      All-Permᴰ (swap e f) h = (subst P f h.1.0, (subst P e h.0, h.1.1))
      All-Permᴰ (trans p q) h = All-Permᴰ q (All-Permᴰ p h)

      sort-Permᴰ : {xs ys : List A} → Permᴰ xs ys → All P xs → sort xs ≡ sort ys
      unfolding sort
      sort-Permᴰ nil h = refl
      sort-Permᴰ (cons e p) h = ap₂ insert e (sort-Permᴰ p h.1)
      sort-Permᴰ (swap {a} {b} {l} e f) h =
          insert_comm a b (sort l) (ties a b h.0 h.1.0)
          ∙ ap₂ (λ x y. insert x (insert y (sort l))) f e
      sort-Permᴰ (trans p q) h = sort-Permᴰ p h ∙ sort-Permᴰ q (All-Permᴰ p h)

All-Memᴰ {ℓ} : {A : Type ℓ} (xs : List A) → All (λ x. Memᴰ x xs) xs
All-Memᴰ {A = A} [] = tt
All-Memᴰ {A = A} (x ∷ xs) = (Memᴰ.head refl, weaken xs (All-Memᴰ xs))
  where
    weaken : (ys : List A) → All (λ y. Memᴰ y xs) ys → All (λ y. Memᴰ y (x ∷ xs)) ys
    weaken [] h = tt
    weaken (y ∷ ys) h = (Memᴰ.tail h.0, weaken ys h.1)

All-at_mem {ℓ κ} : {A : Type ℓ} (P : A → Type κ) (xs : List A) (x : A) → All P xs → Memᴰ x xs → P x
All-at_mem P [] x h m = elim m [ ]
All-at_mem P (y ∷ ys) x h (Memᴰ.head e) = subst P (sym e) h.0
All-at_mem P (y ∷ ys) x h (Memᴰ.tail m) = All-at_mem P ys x h.1 m

-- Elements of the list that tie in an order are equal.
abbrev pub NoTies {ℓ} : {A : Type ℓ} → (A → A → Ordering) → List A → Type ℓ
NoTies cmp xs = All (λ x. All (λ y. cmp x y ≡ Ordering.eq → x ≡ y) xs) xs

-- The sorted list does not depend on the order of the input, if elements of it that tie are equal.
pub sort_unique {ℓ} :
    {A : Type ℓ} (cmp : A → A → Ordering) (xs ys : List A)
    → IsSet A
    → IsConsistent cmp
    → NoTies cmp xs
    → Perm xs ys
    → sort cmp xs ≡ sort cmp ys
sort_unique {A = A} cmp xs ys set consistent ties p =
    ∥∥₁_elim p (list_set _ _)
      (λ q. sort-Permᴰ cmp consistent (λ x. Memᴰ x xs) apart q (All-Memᴰ xs))
  where
    list_set : IsSet (List A)
    list_set = hlevel set

    apart : (x y : A) → Memᴰ x xs → Memᴰ y xs → cmp x y ≡ Ordering.eq → x ≡ y
    apart x y m n =
        All-at_mem (λ z. cmp x z ≡ Ordering.eq → x ≡ z) xs y
          (All-at_mem (λ w. All (λ z. cmp w z ≡ Ordering.eq → w ≡ z) xs) xs x ties m) n

-- Comparing by one thing and then by another.
abbrev pub then_by : Ordering → Ordering → Ordering
then_by Ordering.eq o = o
then_by o _ = o

pub then_by-IsConsistent {ℓ} :
    {A : Type ℓ} (c d : A → A → Ordering)
    → IsConsistent c
    → IsConsistent d
    → IsConsistent (λ x y. then_by (c x y) (d x y))
then_by-IsConsistent c d hc hd = record {
  flips = λ x y. ground (arith, hc.flips x y, hd.flips x y);
  trans = λ x y z h k. ground (
    arith,
    hc.flips x y,
    hc.flips y z,
    hc.flips x z,
    hc.trans x y z,
    hc.trans z x y,
    hc.trans y z x,
    hd.trans x y z,
  );
}

pub on-IsConsistent {ℓ κ} :
    {A : Type ℓ} {B : Type κ} (f : A → B) (c : B → B → Ordering)
    → IsConsistent c
    → IsConsistent (λ x y. c (f x) (f y))
on-IsConsistent f c h = record {
  flips = λ x y. h.flips (f x) (f y);
  trans = λ x y z. h.trans (f x) (f y) (f z);
}

pub compare-IsConsistent : IsConsistent compare
compare-IsConsistent = record { flips = λ x y. ground arith; trans = λ x y z h k. ground arith }

-- Those that pass a test come first.
abbrev pub first_if : Bool → Bool → Ordering
first_if true false = Ordering.lt
first_if false true = Ordering.gt
first_if _ _ = Ordering.eq

pub first_if-IsConsistent : IsConsistent first_if
first_if-IsConsistent = record { flips = λ x y. ground arith; trans = λ x y z h k. ground arith }
