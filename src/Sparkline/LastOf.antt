-- ===== src/Sparkline/LastOf.antt =====
-- The last elements of a list, to which the points of a sparkline are cut down.
use secan.Base.{
  ℕ, zero, suc, ◌+◌, ◌-◌, ◌≤◌, ◌≡◌, refl, sym, ap, ◌∙◌, List, [], ◌∷◌, ◌++◌, ltb, length, drop,
  length-append, length-drop, arith, Bool-cases, inl, inr,
}
use secan.Sparkline.{DataPoint, add_point}

module _ {ℓ} {A : Type ℓ} where
  -- The last elements of a list.
  abbrev pub last_of : ℕ → List A → List A
  last_of n xs = drop (length xs - n) xs

  drop-append : (k : ℕ) (xs ys : List A) → k ≤ length xs → drop k (xs ++ ys) ≡ drop k xs ++ ys
  drop-append zero xs ys h = refl
  drop-append (suc k) [] ys h = absurd (omega arith)
  drop-append (suc k) (x ∷ xs) ys h = drop-append k xs ys (omega arith)

  pub drop_nil : (k : ℕ) → drop {A = A} k [] ≡ []
  drop_nil zero = refl
  drop_nil (suc k) = refl

  drop-drop : (i j : ℕ) (xs : List A) → drop j (drop i xs) ≡ drop (i + j) xs
  drop-drop zero j xs = let e : j ≡ zero + j = omega arith in ap (λ n. drop n xs) e
  drop-drop (suc i) j [] = drop_nil j ∙ sym (drop_nil (suc i + j))
  drop-drop (suc i) j (x ∷ xs) =
      let e : suc (i + j) ≡ suc i + j = omega arith in
      drop-drop i j xs ∙ ap (λ n. drop n (x ∷ xs)) e

  -- Cutting down after each addition is the same as cutting down once.
  pub last_of-snoc :
      (n : ℕ) (xs : List A) (y : A) → last_of n (last_of n xs ++ y ∷ []) ≡ last_of n (xs ++ y ∷ [])
  last_of-snoc n xs y =
      let k = length xs - n in
      let shorter : length (last_of n xs ++ y ∷ []) ≡ length xs - k + 1 =
        omega (arith, length-append (last_of n xs) (y ∷ []), length-drop k xs) in
      let longer : length (xs ++ y ∷ []) ≡ length xs + 1 =
        omega (arith, length-append xs (y ∷ [])) in
      ap (λ l. drop l (last_of n xs ++ y ∷ [])) (ap (λ l. l - n) shorter)
      ∙ ap (drop (length xs - k + 1 - n)) (sym (drop-append k xs (y ∷ []) (omega arith)))
      ∙ drop-drop k (length xs - k + 1 - n) (xs ++ y ∷ [])
      ∙ ap (λ l. drop l (xs ++ y ∷ [])) (omega (arith, longer))

pub add_point-last_of :
    (n : ℕ) (p : DataPoint) (xs : List DataPoint) → add_point n p xs ≡ last_of n (xs ++ p ∷ [])
unfolding add_point
add_point-last_of n p xs = elim (Bool-cases (ltb n (length (xs ++ p ∷ [])))) [
  | inl long ↦ rw long refl
  | inr short ↦
      let fits : length (xs ++ p ∷ []) - n ≡ 0 = ground arith in
      rw short (ap (λ l. drop l (xs ++ p ∷ [])) (sym fits))
]
