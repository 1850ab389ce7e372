-- ===== src/ShardLists/Paging.antt =====
-- frontend/src/pages/ClusterView.tsx: the pages of unassigned shards that are collected.
use secan.Base.{
  ℕ, suc, zero, ◌+◌, ◌-◌, ◌*◌, ◌<◌, ◌≤◌, ◌≡◌, refl, sym, ap, ◌∙◌, subst, Option, some, List, [],
  ◌∷◌, ◌++◌, true, false, Bool-cases, inl, inr, arith, length, take, drop, length-drop, ltb,
}
use secan.ShardLists.{paginate_vec, collect_pages}

module _ {A : Type 0} where
  take-drop : (n : ℕ) (xs : List A) → take n xs ++ drop n xs ≡ xs
  take-drop zero xs = refl
  take-drop (suc n) [] = refl
  take-drop (suc n) (x ∷ xs) = ap (λ ys. x ∷ ys) (take-drop n xs)

  drop-nil : (n : ℕ) → drop {A = A} n [] ≡ []
  drop-nil zero = refl
  drop-nil (suc n) = refl

  take-nil : (n : ℕ) → take {A = A} n [] ≡ []
  take-nil zero = refl
  take-nil (suc n) = refl

  drop-drop : (m n : ℕ) (xs : List A) → drop m (drop n xs) ≡ drop (n + m) xs
  drop-drop m zero xs = let none_more : m ≡ 0 + m = omega arith in ap (λ j. drop j xs) none_more
  drop-drop m (suc n) [] = drop-nil m ∙ sym (drop-nil (suc n + m))
  drop-drop m (suc n) (x ∷ xs) =
      let one_more : suc (n + m) ≡ suc n + m = omega arith in
      drop-drop m n xs ∙ ap (λ j. drop j (x ∷ xs)) one_more

  drop_all : (n : ℕ) (xs : List A) → length xs ≤ n → drop n xs ≡ []
  drop_all n [] h = drop-nil n
  drop_all zero (x ∷ xs) h = absurd (omega arith)
  drop_all (suc n) (x ∷ xs) h = drop_all n xs (omega arith)

  take_short : (n : ℕ) (xs : List A) → length (take n xs) < n → take n xs ≡ xs
  take_short zero xs h = absurd (omega arith)
  take_short (suc n) [] h = refl
  take_short (suc n) (x ∷ xs) h = ap (λ ys. x ∷ ys) (take_short n xs (omega arith))

  length-take_most : (n : ℕ) (xs : List A) → length (take n xs) ≤ length xs
  length-take_most zero xs = omega arith
  length-take_most (suc n) [] = omega arith
  length-take_most (suc n) (x ∷ xs) = let le = length-take_most n xs in omega arith

  module _ (get_shards : ℕ → Option (List A)) (page_size fuel page : ℕ) (items : List A)
      (answers : get_shards page ≡ some items) where
    collect_pages-last :
        ltb (length items) page_size ≡ true
        → collect_pages get_shards page_size (suc fuel) page ≡ some items
    unfolding collect_pages
    collect_pages-last short = rw (collect_pages, answers) (rw short (rw answers refl))

    collect_pages-full :
        (rest : List A)
        → ltb (length items) page_size ≡ false
        → collect_pages get_shards page_size fuel (page + 1) ≡ some rest
        → collect_pages get_shards page_size (suc fuel) page ≡ some (items ++ rest)
    unfolding collect_pages
    collect_pages-full rest full more =
        rw (collect_pages, answers) (rw full (rw more (rw answers refl)))

  module _ (xs : List A) (page_size : ℕ) (some_size : 0 < page_size) where
    -- A page is what is left from its offset on, up to the size of a page.
    paginate_vec-page :
        (k : ℕ) → paginate_vec xs (k + 1) page_size ≡ take page_size (drop (k * page_size) xs)
    unfolding paginate_vec
    paginate_vec-page k =
        let offset : k + 1 - 1 ≡ k = omega arith in
        rw (paginate_vec, offset)
          (elim (Bool-cases (ltb (k * page_size) (length xs))) [
            | inl inside ↦ rw inside refl
            | inr outside ↦ rw outside (
                sym (
                  ap (take page_size) (drop_all (k * page_size) xs (ground arith))
                  ∙ take-nil page_size))
          ])

    collect_pages-from :
        (fuel k : ℕ)
        → length (drop (k * page_size) xs) < fuel
        → collect_pages (λ page. some (paginate_vec xs page page_size)) page_size fuel (k + 1)
          ≡ some (drop (k * page_size) xs)
    collect_pages-from zero k h = absurd (omega arith)
    collect_pages-from (suc fuel) k h =
        let left : List A = drop (k * page_size) xs in
        let answers = ap some (paginate_vec-page k) in
        elim (Bool-cases (ltb (length (take page_size left)) page_size)) [
          | inl short ↦
              collect_pages-last (λ page. some (paginate_vec xs page page_size)) page_size fuel
                (k + 1) (take page_size left) answers short
              ∙ ap some (take_short page_size left (ground arith))
          | inr full ↦
              let most = length-take_most page_size left in
              let next_offset : (k + 1) * page_size ≡ k * page_size + page_size = ground arith in
              let next : drop ((k + 1) * page_size) xs ≡ drop page_size left =
                ap (λ j. drop j xs) next_offset ∙ sym (drop-drop page_size (k * page_size) xs) in
              collect_pages-full (λ page. some (paginate_vec xs page page_size)) page_size fuel
                (k + 1) (take page_size left) answers (drop page_size left) full
                (subst
                  (λ ys.
                    length ys < fuel
                    → collect_pages (λ page. some (paginate_vec xs page page_size)) page_size fuel
                        (k + 1 + 1)
                      ≡ some ys)
                  next (collect_pages-from fuel (k + 1)) (rw length-drop (ground arith)))
              ∙ ap some (take-drop page_size left)
        ]

    -- The collector ends and has all the shards, for a server that slices a list into pages as it is asked
    -- and a size that is not 0, on a fuel that is larger than the number of shards.
    pub collect_pages-all :
        (fuel : ℕ)
        → length xs < fuel
        → collect_pages (λ page. some (paginate_vec xs page page_size)) page_size fuel 1 ≡ some xs
    collect_pages-all fuel h =
        let none_before : 0 * page_size ≡ 0 = omega arith in
        subst
          (λ j.
            length (drop j xs) < fuel
            → collect_pages (λ page. some (paginate_vec xs page page_size)) page_size fuel 1
              ≡ some (drop j xs))
          none_before (collect_pages-from fuel 0) h
