-- ===== src/Bulk/Validation.antt =====
-- The split of the selected names.
use mathlib.Core.List.{append-nil}
use secan.Base.{
  ◌+◌, ◌≡◌, refl, sym, ap, ◌∙◌, String, Option, none, some, List, [], ◌∷◌, ◌++◌, Bool, true, not,
  if◌then◌else◌, ◌===◌, ◌&&◌, includes, keep, holds, length, arith, eq_iff, Option-cases,
  Bool-cases, inl, inr, ltb, find_last, or_last, or_last-none, append-keep, length-keep_split,
  any-keep, any,
}
use secan.Base.Dict.{Dict, get, put, get-put}
use secan.Api.{IndexInfo, BulkOperationType, BulkOperationValidationResult}
use secan.Bulk.{
  validate_index_for_operation, get_ignore_reason, index_map, index_map_from, validate_name,
  validate_names, validate_bulk_operation, has_valid_indices,
}

-- The index that a name stands for: the last of the name.
abbrev pub find_index : List IndexInfo → String → Option IndexInfo
find_index indices name = find_last (λ (i : IndexInfo). i.name === name) indices

-- The verdict on one name, and why it is ignored.
abbrev pub is_valid : Option IndexInfo → BulkOperationType → Bool
is_valid found operation = holds (λ i. validate_index_for_operation i operation) found

abbrev pub reason : Option IndexInfo → BulkOperationType → String
reason none operation = "Index not found"
reason (some index) operation = get_ignore_reason index operation

get-index_map_from :
    (m : Dict IndexInfo) (indices : List IndexInfo) (k : String)
    → get k (index_map_from m indices)
      ≡ or_last (get k m) (keep (λ (i : IndexInfo). i.name === k) indices)
unfolding index_map_from
get-index_map_from m [] k = refl
get-index_map_from m (i ∷ indices) k = elim (Bool-cases (i.name === k)) [
  | inl same ↦
      get-index_map_from (put i.name i m) indices k
      ∙ ap (λ o. or_last o (keep (λ (i : IndexInfo). i.name === k) indices)) (get-put i.name k i m)
      ∙ rw same
  | inr other ↦
      get-index_map_from (put i.name i m) indices k
      ∙ ap (λ o. or_last o (keep (λ (i : IndexInfo). i.name === k) indices)) (get-put i.name k i m)
      ∙ rw other
]

get-index_map :
    (indices : List IndexInfo) (k : String) → get k (index_map indices) ≡ find_index indices k
unfolding get
get-index_map indices k =
    get-index_map_from [] indices k ∙ or_last-none (keep (λ (i : IndexInfo). i.name === k) indices)

module _ (m : Dict IndexInfo) (operation : BulkOperationType) where
  abbrev passes : String → Bool
  passes name = is_valid (get name m) operation

  validate_name-parts :
      (r : BulkOperationValidationResult) (n : String)
      → ((validate_name m operation r n).valid_indices
          ≡ r.valid_indices ++ (if passes n then n ∷ [] else []))
        × ((validate_name m operation r n).ignored_indices
            ≡ r.ignored_indices ++ (if not (passes n) then n ∷ [] else []))
        × ((validate_name m operation r n).ignore_reasons ≡ (
            if passes n
            then r.ignore_reasons
            else put n (reason (get n m) operation) r.ignore_reasons))
  unfolding validate_name
  validate_name-parts r n = elim (Option-cases (get n m)) [
    | inl missing ↦ rw missing (ground (arith, append-nil r.valid_indices))
    | inr (i, found) ↦
        rw found (ground (arith, append-nil r.valid_indices, append-nil r.ignored_indices))
  ]

  validate_names-valid :
      (r : BulkOperationValidationResult) (names : List String)
      → (validate_names m operation r names).valid_indices ≡ r.valid_indices ++ keep passes names
  unfolding validate_names
  validate_names-valid r [] = sym (append-nil _)
  validate_names-valid r (n ∷ names) =
      validate_names-valid (validate_name m operation r n) names
      ∙ ap (λ v. v ++ keep passes names) (validate_name-parts r n).0
      ∙ append-keep passes r.valid_indices n names

  validate_names-ignored :
      (r : BulkOperationValidationResult) (names : List String)
      → (validate_names m operation r names).ignored_indices
        ≡ r.ignored_indices ++ keep (λ n. not (passes n)) names
  unfolding validate_names
  validate_names-ignored r [] = sym (append-nil _)
  validate_names-ignored r (n ∷ names) =
      validate_names-ignored (validate_name m operation r n) names
      ∙ ap (λ v. v ++ keep (λ n. not (passes n)) names) (validate_name-parts r n).1
      ∙ append-keep (λ n. not (passes n)) r.ignored_indices n names

  validate_names-reasons :
      (r : BulkOperationValidationResult) (names : List String) (j : String)
      → get j (validate_names m operation r names).ignore_reasons ≡ (
          if includes names j && not (passes j)
          then some (reason (get j m) operation)
          else get j r.ignore_reasons)
  unfolding validate_names
  validate_names-reasons r [] j = refl
  validate_names-reasons r (n ∷ names) j = elim (Bool-cases (n === j)) [
    | inl same ↦
        let e : n ≡ j = (eq_iff n j).0 same in
        validate_names-reasons (validate_name m operation r n) names j
        ∙ rw (validate_name-parts r n).2 (
            rw (← e) (
              ground
                (arith, eq_iff n n, get-put n n (reason (get n m) operation) r.ignore_reasons)))
    | inr other ↦
        validate_names-reasons (validate_name m operation r n) names j
        ∙ rw (validate_name-parts r n).2
            (ground (arith, get-put n j (reason (get n m) operation) r.ignore_reasons))
  ]

keep_ext :
    (p q : String → Bool) (xs : List String) → ((x : String) → p x ≡ q x) → keep p xs ≡ keep q xs
keep_ext p q [] h = refl
keep_ext p q (x ∷ xs) h = rw (h x, keep_ext p q xs h)

-- The verdict on a selected name.
abbrev pub affects : List IndexInfo → BulkOperationType → String → Bool
affects indices operation name = is_valid (find_index indices name) operation

-- Validation splits the selected names in their order: those whose index (the last listed under the
-- name) admits the operation are valid, all others are ignored, and exactly the ignored names have a
-- reason, the one for their index or that the index was not found.
pub validate_bulk_operation-split :
    (indices : List IndexInfo) (operation : BulkOperationType) (selected : List String)
    → let r = validate_bulk_operation indices operation selected in
      (r.valid_indices ≡ keep (affects indices operation) selected)
      × (r.ignored_indices ≡ keep (λ n. not (affects indices operation n)) selected)
      × ((j : String)
          → get j r.ignore_reasons ≡ (
              if includes selected j && not (affects indices operation j)
              then some (reason (find_index indices j) operation)
              else none))
unfolding validate_bulk_operation get
validate_bulk_operation-split indices operation selected =
    let m = index_map indices in
    let same = λ (n : String). ap (λ o. is_valid o operation) (get-index_map indices n) in
    (
      validate_names-valid m operation _ selected ∙ keep_ext _ _ selected same,
      validate_names-ignored m operation _ selected ∙ keep_ext _ _ selected (λ n. ap not (same n)),
      λ j.
          validate_names-reasons m operation _ selected j
          ∙ ap
              (λ o.
                if includes selected j && not (is_valid o operation)
                then some (reason o operation)
                else none)
              (get-index_map indices j),
    )

-- An operation can go ahead exactly when one of the selected names is valid, and the two counts of
-- the summary add up to the number of selected names.
pub has_valid_indices-any :
    (indices : List IndexInfo) (operation : BulkOperationType) (selected : List String)
    → let r = validate_bulk_operation indices operation selected in
      (has_valid_indices r ≡ any (affects indices operation) selected)
      × (length r.valid_indices + length r.ignored_indices ≡ length selected)
unfolding has_valid_indices
has_valid_indices-any indices operation selected =
    let (valid, ignored, _) = validate_bulk_operation-split indices operation selected in
    (
      rw valid (nonempty (keep (affects indices operation) selected) ∙ sym (any-keep _ selected)),
      rw (valid, ignored) (length-keep_split (affects indices operation) selected),
    )
  where
    nonempty : (xs : List String) → ltb 0 (length xs) ≡ any (λ x. true) xs
    nonempty [] = refl
    nonempty (x ∷ xs) = ground arith
