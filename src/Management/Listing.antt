-- ===== src/Management/Listing.antt =====
-- frontend/src/pages/ShardManagement.tsx: which indices are listed, and in which order.
use Prim.Native.Nat.{Ordering}
use mathlib.Core.List.{append-nil, append_assoc as list_assoc}
use secan.Base.{
  ◌≡◌, refl, sym, ap, ap₂, ◌∙◌, String, List, [], ◌∷◌, ◌++◌, Bool, true, false, not, ◌&&◌, ◌||◌,
  if◌then◌else◌, ◌===◌, eq_iff, truthy, any, keep, arith, includes, Bool-cases, inl, inr,
}
use secan.Base.Dict.{Dict, get, put, group, push, group-push}
use secan.Base.Sort.{sort, insert, IsConsistent, IsSorted, sort-IsSorted}
use secan.Api.{ShardInfo}
use secan.Management.{shards_by, keys, is_affected, matching_indices, filtered_indices}

module _ (cmp : String → String → Ordering) where
  includes-insert :
      (x k : String) (ys : List String) → includes (insert cmp x ys) k ≡ (x === k || includes ys k)
  unfolding insert
  includes-insert x k [] = refl
  includes-insert x k (y ∷ ys) = ground (arith, includes-insert x k ys)

  includes-sort : (xs : List String) (k : String) → includes (sort cmp xs) k ≡ includes xs k
  unfolding sort
  includes-sort [] k = refl
  includes-sort (x ∷ xs) k =
      includes-insert x k (sort cmp xs) ∙ ap (λ b. x === k || b) (includes-sort xs k)

includes-keep :
    (p : String → Bool) (xs : List String) (k : String)
    → includes (keep p xs) k ≡ (includes xs k && p k)
includes-keep p [] k = refl
includes-keep p (x ∷ xs) k = ground (arith, eq_iff x k, includes-keep p xs k)

includes-keys-put :
    (k j : String) (v : List ShardInfo) (m : Dict (List ShardInfo))
    → includes (keys (put k v m)) j ≡ (k === j || includes (keys m) j)
unfolding put
includes-keys-put k j v [] = refl
includes-keys-put k j v ((i, w) ∷ m) =
    ground (arith, eq_iff k j, eq_iff i k, eq_iff i j, includes-keys-put k j v m)

or_swap : (a b c : Bool) → ((a || b) || c) ≡ (b || (a || c))
or_swap a b c = ground arith

module _ (key : ShardInfo → String) where
  includes-keys-shards_by :
      (shards : List ShardInfo) (acc : Dict (List ShardInfo)) (k : String)
      → includes (keys (shards_by key shards acc)) k
        ≡ (includes (keys acc) k || any (λ s. key s === k) shards)
  unfolding shards_by push
  includes-keys-shards_by [] acc k = ground arith
  includes-keys-shards_by (s ∷ rest) acc k =
      includes-keys-shards_by rest (push (key s) s acc) k
      ∙ ap (λ b. b || any (λ t. key t === k) rest)
          (includes-keys-put (key s) k (group (key s) acc ++ s ∷ []) acc)
      ∙ or_swap (key s === k) (includes (keys acc) k) (any (λ t. key t === k) rest)

  group-shards_by :
      (shards : List ShardInfo) (acc : Dict (List ShardInfo)) (k : String)
      → group k (shards_by key shards acc) ≡ group k acc ++ keep (λ s. key s === k) shards
  unfolding shards_by
  group-shards_by [] acc k = sym (append-nil _)
  group-shards_by (s ∷ rest) acc k =
      group-shards_by rest (push (key s) s acc) k
      ∙ ap (λ v. v ++ keep (λ t. key t === k) rest) (group-push (key s) k s acc)
      ∙ elim (Bool-cases (key s === k)) [
        | inl same ↦ rw same (list_assoc (group k acc) (s ∷ []) (keep (λ t. key t === k) rest))
        | inr other ↦ rw other refl
      ]

module _ (by_locale : String → String → Ordering) where
  in_direction-IsConsistent :
      (ascending : Bool)
      → IsConsistent by_locale
      → IsConsistent (λ a b. if ascending then by_locale a b else by_locale b a)
  in_direction-IsConsistent true h = h
  in_direction-IsConsistent false h = record {
    flips = λ x y. h.flips y x;
    trans = λ x y z p q. h.trans z y x q p;
  }

  module _ (finds : String → String → Bool) (index_filter index : String) where
    includes-named :
        (xs : List String)
        → includes (if truthy index_filter then keep (λ i. finds i index_filter) xs else xs) index
          ≡ (includes xs index && (not (truthy index_filter) || finds index index_filter))
    includes-named xs = elim (Bool-cases (truthy index_filter)) [
      | inl some_filter ↦ rw some_filter (includes-keep (λ i. finds i index_filter) xs index)
      | inr no_filter ↦ rw no_filter (ground arith)
    ]

    includes-matching_indices :
        (affected : Bool) (m : Dict (List ShardInfo))
        → includes (matching_indices finds by_locale index_filter affected m) index ≡ (
            includes (keys m) index
            && (not (truthy index_filter) || finds index index_filter)
            && (not affected || any is_affected (group index m)))
    unfolding matching_indices
    includes-matching_indices false m = includes-named (keys m) ∙ ground arith
    includes-matching_indices true m =
        includes-keep (λ i. any is_affected (group i m)) _ index
        ∙ ap (λ b. b && any is_affected (group index m)) (includes-named (keys m))

-- An index is listed exactly if one of the shards is of it, the filter, where there is one, finds it,
-- and, where only the affected ones are asked for, a shard of it is unassigned, moving or starting. The
-- list is in the order of the comparison, or in its reverse, if the comparison is consistent.
pub filtered_indices_iff :
    (finds : String → String → Bool) (by_locale : String → String → Ordering)
    → IsConsistent by_locale
    → (index_filter : String) (show_only_affected sort_ascending : Bool) (shards : List ShardInfo)
    → ((index : String)
        → includes
            (filtered_indices finds by_locale index_filter show_only_affected sort_ascending shards)
            index
          ≡ (any (λ s. s.index === index) shards
              && (not (truthy index_filter) || finds index index_filter)
              && (not show_only_affected
                  || any is_affected (keep (λ s. s.index === index) shards))))
      × IsSorted
          (λ a b. if sort_ascending then by_locale a b else by_locale b a)
          (filtered_indices finds by_locale index_filter show_only_affected sort_ascending shards)
unfolding filtered_indices matching_indices get
filtered_indices_iff finds by_locale consistent index_filter show_only_affected sort_ascending
      shards =
    let order = λ (a b : String). if sort_ascending then by_locale a b else by_locale b a in
    let by_index = shards_by (λ s. s.index) shards [] in
    let names = matching_indices finds by_locale index_filter show_only_affected by_index in
    (
      (λ index.
          includes-sort order names index
          ∙ includes-matching_indices by_locale finds index_filter index show_only_affected by_index
          ∙ ap₂
              (λ here group_shards.
                here
                && (not (truthy index_filter) || finds index index_filter)
                && (not show_only_affected || any is_affected group_shards))
              (includes-keys-shards_by (λ s. s.index) shards [] index)
              (group-shards_by (λ s. s.index) shards [] index)),
      sort-IsSorted order (in_direction-IsConsistent by_locale sort_ascending consistent) names,
    )
