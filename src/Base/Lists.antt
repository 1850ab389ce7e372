-- ===== src/Base/Lists.antt =====
-- Lists measured and indexed by native numbers, and the array methods that the program calls.
use Prim.Native.Nat.{ℕ, zero, suc, ◌+◌, ◌-◌, ◌≤◌}
use mathlib.Core.Path.{◌≡◌, refl, ap, ◌∙◌}
use mathlib.Core.Bool.{Bool, true, false, ◌||◌, not}
use mathlib.Core.List.{List, [], ◌∷◌, ◌++◌, append_assoc, map}
use mathlib.Core.Option.{Option, none, some}
use native.Mathlib.Omega.{arith}
use secan.Base.Tests.{if◌then◌else◌}

module _ {ℓ} {A : Type ℓ} where
  abbrev pub length : List A → ℕ
  length [] = 0
  length (x ∷ xs) = suc (length xs)

  abbrev pub get_elem? : List A → ℕ → Option A
  get_elem? [] i = none
  get_elem? (x ∷ xs) zero = some x
  get_elem? (x ∷ xs) (suc i) = get_elem? xs i

  abbrev pub take : ℕ → List A → List A
  take zero xs = []
  take (suc n) [] = []
  take (suc n) (x ∷ xs) = x ∷ take n xs

  abbrev pub drop : ℕ → List A → List A
  drop zero xs = xs
  drop (suc n) [] = []
  drop (suc n) (x ∷ xs) = drop n xs

  -- `some` of an array.
  abbrev pub any : (A → Bool) → List A → Bool
  any p [] = false
  any p (x ∷ xs) = p x || any p xs

  -- `filter` of an array.
  abbrev pub keep : (A → Bool) → List A → List A
  keep p [] = []
  keep p (x ∷ xs) = if p x then x ∷ keep p xs else keep p xs

  -- `findIndex`; `none` is -1.
  unfoldable pub find_index : (A → Bool) → List A → Option ℕ
  find_index p [] = none
  find_index p (x ∷ xs) = elim (p x) [
    | true ↦ some 0
    | false ↦ elim (find_index p xs) [ none ↦ none | some i ↦ some (suc i) ]
  ]

  -- The last element.
  abbrev pub last? : List A → Option A
  last? [] = none
  last? (x ∷ []) = some x
  last? (x ∷ (y ∷ ys)) = last? (y ∷ ys)

  -- `slice(0, -1)`.
  abbrev pub init : List A → List A
  init [] = []
  init (x ∷ []) = []
  init (x ∷ (y ∷ ys)) = x ∷ init (y ∷ ys)

  pub length-append : (xs ys : List A) → length (xs ++ ys) ≡ length xs + length ys
  length-append [] ys = omega arith
  length-append (x ∷ xs) ys = omega (arith, length-append xs ys)

  pub length-take_le : (n : ℕ) (xs : List A) → length (take n xs) ≤ n
  length-take_le zero xs = omega arith
  length-take_le (suc n) [] = omega arith
  length-take_le (suc n) (x ∷ xs) = omega (arith, length-take_le n xs)

  pub length-drop : (n : ℕ) (xs : List A) → length (drop n xs) ≡ length xs - n
  length-drop zero xs = omega arith
  length-drop (suc n) [] = omega arith
  length-drop (suc n) (x ∷ xs) = omega (arith, length-drop n xs)

  pub take_all : (n : ℕ) (xs : List A) → length xs ≤ n → take n xs ≡ xs
  take_all zero [] h = refl
  take_all zero (x ∷ xs) h = absurd (omega arith)
  take_all (suc n) [] h = refl
  take_all (suc n) (x ∷ xs) h = ap (◌∷◌ x) (take_all n xs (omega arith))

  pub init-append : (xs : List A) (x : A) → init (xs ++ x ∷ []) ≡ xs
  init-append [] x = refl
  init-append (y ∷ []) x = refl
  init-append (y ∷ (z ∷ zs)) x = ap (◌∷◌ y) (init-append (z ∷ zs) x)

  pub last?-append : (xs : List A) (x : A) → last? (xs ++ x ∷ []) ≡ some x
  last?-append [] x = refl
  last?-append (y ∷ []) x = refl
  last?-append (y ∷ (z ∷ zs)) x = last?-append (z ∷ zs) x

  pub any-append : (p : A → Bool) (xs ys : List A) → any p (xs ++ ys) ≡ (any p xs || any p ys)
  any-append p [] ys = ground arith
  any-append p (x ∷ xs) ys = ground (arith, any-append p xs ys)

module _ {ℓ κ} {A : Type ℓ} {B : Type κ} where
  abbrev pub flat_map : (A → List B) → List A → List B
  flat_map f [] = []
  flat_map f (x ∷ xs) = f x ++ flat_map f xs

-- A predicate that holds of every element.
module _ {ℓ κ} {A : Type ℓ} where
  abbrev pub All : (A → Type κ) → List A → Type κ
  All P [] = Unit
  All P (x ∷ xs) = P x × All P xs

  pub All-append : (P : A → Type κ) (xs ys : List A) → All P xs → All P ys → All P (xs ++ ys)
  All-append P [] ys hx hy = hy
  All-append P (x ∷ xs) ys hx hy = (hx.0, All-append P xs ys hx.1 hy)

  pub All-take : (P : A → Type κ) (n : ℕ) (xs : List A) → All P xs → All P (take n xs)
  All-take P zero xs h = tt
  All-take P (suc n) [] h = tt
  All-take P (suc n) (x ∷ xs) h = (h.0, All-take P n xs h.1)

module _ {ℓ κ μ} {A : Type ℓ} {B : Type κ} where
  pub All-flat_map :
      (P : B → Type μ) (f : A → List B) (xs : List A)
      → ((x : A) → All P (f x))
      → All P (flat_map f xs)
  All-flat_map P f [] h = tt
  All-flat_map P f (x ∷ xs) h = All-append P (f x) (flat_map f xs) (h x) (All-flat_map P f xs h)

module _ {ℓ} {A : Type ℓ} (p : A → Bool) where
  pub append-keep :
      (v : List A) (x : A) (xs : List A)
      → (v ++ (if p x then x ∷ [] else [])) ++ keep p xs ≡ v ++ keep p (x ∷ xs)
  append-keep v x xs = append_assoc v _ _ ∙ ap (◌++◌ v) step
    where
      step : (if p x then x ∷ [] else []) ++ keep p xs ≡ keep p (x ∷ xs)
      step = ground arith

  pub any-keep : (xs : List A) → any p xs ≡ any (λ x. true) (keep p xs)
  any-keep [] = refl
  any-keep (x ∷ xs) = ground (arith, any-keep xs)

  pub length-keep_split :
      (xs : List A) → length (keep p xs) + length (keep (λ x. not (p x)) xs) ≡ length xs
  length-keep_split [] = omega arith
  length-keep_split (x ∷ xs) = ground (arith, length-keep_split xs)

  -- The last element that passes the test.
  abbrev pub find_last : List A → Option A
  find_last xs = last? (keep p xs)

-- A relation between each element and all that stand behind it.
module _ {ℓ κ} {A : Type ℓ} where
  abbrev pub Pairwise : (A → A → Type κ) → List A → Type κ
  Pairwise R [] = Unit
  Pairwise R (x ∷ xs) = All (R x) xs × Pairwise R xs

module _ {ℓ κ μ} {A : Type ℓ} where
  -- What follows from one predicate at each element follows from it at all.
  pub All-imp :
      {P : A → Type κ} {Q : A → Type μ}
      → ((x : A) → P x → Q x)
      → (xs : List A) → All P xs
      → All Q xs
  All-imp f [] h = tt
  All-imp f (x ∷ xs) h = (f x h.0, All-imp f xs h.1)

module _ {ℓ κ μ} {A : Type ℓ} {B : Type κ} where
  pub All-map :
      (P : B → Type μ) (f : A → B) (xs : List A) → All (λ x. P (f x)) xs → All P (map f xs)
  All-map P f [] h = tt
  All-map P f (x ∷ xs) h = (h.0, All-map P f xs h.1)

  pub Pairwise-map :
      (R : B → B → Type μ) (f : A → B) (xs : List A)
      → Pairwise (λ x y. R (f x) (f y)) xs
      → Pairwise R (map f xs)
  Pairwise-map R f [] h = tt
  Pairwise-map R f (x ∷ xs) h = (All-map (R (f x)) f xs h.0, Pairwise-map R f xs h.1)

module _ {ℓ} {A : Type ℓ} where
  -- A relation that follows from another one between elements with a property.
  pub Pairwise-imp :
      (P : A → Type 0) (R S : A → A → Type 0)
      → ((x y : A) → P x → P y → R x y → S x y)
      → (xs : List A) → All P xs
      → Pairwise R xs
      → Pairwise S xs
  Pairwise-imp P R S f [] p r = tt
  Pairwise-imp P R S f (x ∷ xs) p r = (row xs p.1 r.0, Pairwise-imp P R S f xs p.1 r.1)
    where
      row : (ys : List A) → All P ys → All (R x) ys → All (S x) ys
      row [] q s = tt
      row (y ∷ ys) q s = (f x y p.0 q.0 s.0, row ys q.1 s.1)

  pub All-each :
      {K : Type 0} (Q : K → A → Type 0) (k : A → K) (xs : List A)
      → ((i : K) → All (Q i) xs)
      → All (λ x. Q (k x) x) xs
  All-each Q k [] h = tt
  All-each Q k (x ∷ xs) h = ((h (k x)).0, All-each Q k xs (λ i. (h i).1))

  pub All-both : (P Q : A → Type 0) (xs : List A) → All P xs → All Q xs → All (λ x. P x × Q x) xs
  All-both P Q [] p q = tt
  All-both P Q (x ∷ xs) p q = ((p.0, q.0), All-both P Q xs p.1 q.1)

-- The last element, or the given one where there is none.
abbrev pub or_last : {A : Type 0} → Option A → List A → Option A
or_last d [] = d
or_last d (x ∷ xs) = or_last (some x) xs

or_last-last? : {A : Type 0} (x : A) (xs : List A) → or_last (some x) xs ≡ last? (x ∷ xs)
or_last-last? x [] = refl
or_last-last? x (y ∷ ys) = or_last-last? y ys

pub or_last-none : {A : Type 0} (xs : List A) → or_last none xs ≡ last? xs
or_last-none [] = refl
or_last-none (x ∷ xs) = or_last-last? x xs
