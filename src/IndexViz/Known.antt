-- ===== src/IndexViz/Known.antt =====
-- frontend/src/utils/indexVisualizationLayout.ts: when the chart can be drawn, and what its cards hold.
use mathlib.Core.Option
use secan.Base.{
  ℕ, Ordering, ◌+◌, ◌≡◌, refl, ap, ap₂, ◌∙◌, String, Option, none, some, List, [], ◌∷◌, ◌++◌, Bool,
  true, false, Option-cases, or_else, ◌&&◌, ◌===◌, eq_iff, arith, Bool-cases, inl, inr, map,
  is_some, any, given, truthy, ◌||◌,
}
use secan.Base.Dict.{Dict, get, put, push, group, get-put}
use secan.Base.Sort.{sort, insert}
use secan.Api.{NodeInfo, ShardInfo}
use secan.ShardOrder.{Collation}
use secan.IndexViz.{
  put_given, infos_from, key_of, group_shards, info_of, compare_keys, sorted_keys, emit_cards,
  calculate_index_viz_layout,
}

unfoldable pub all {ℓ} : {A : Type ℓ} → (A → Bool) → List A → Bool
all p [] = true
all p (x ∷ xs) = p x && all p xs

all-same :
    {A : Type 0} (p q : A → Bool) → ((x : A) → p x ≡ q x) → (xs : List A) → all p xs ≡ all q xs
unfolding all
all-same p q e [] = refl
all-same p q e (x ∷ xs) = ap₂ (λ a b. a && b) (e x) (all-same p q e xs)

module _ {ℓ} {A : Type ℓ} (cmp : A → A → Ordering) (p : A → Bool) where
  all-insert : (x : A) (xs : List A) → all p (insert cmp x xs) ≡ (p x && all p xs)
  unfolding insert all
  all-insert x [] = refl
  all-insert x (y ∷ ys) = ground (arith, all-insert x ys)

  all-sort : (xs : List A) → all p (sort cmp xs) ≡ all p xs
  unfolding sort all
  all-sort [] = refl
  all-sort (x ∷ xs) = all-insert x (sort cmp xs) ∙ ap (λ b. p x && b) (all-sort xs)

abbrev keys : Dict (List ShardInfo) → List String
keys m = map (λ entry. entry.0) m

module _ (p : String → Bool) where
  all-put :
      (k : String) (v : List ShardInfo) (m : Dict (List ShardInfo))
      → all p (keys (put k v m)) ≡ (p k && all p (keys m))
  unfolding put all
  all-put k v [] = refl
  all-put k v ((j, w) ∷ m) = elim (Bool-cases (j === k)) [
    | inl same ↦ rw same (ground (arith, ap p ((eq_iff j k).0 same)))
    | inr other ↦ rw other (ground (arith, all-put k v m))
  ]

  all-group_shards :
      (m : Dict (List ShardInfo)) (shards : List ShardInfo)
      → all p (keys (group_shards m shards)) ≡ (all p (keys m) && all (λ s. p (key_of s)) shards)
  unfolding group_shards all push
  all-group_shards m [] = ground arith
  all-group_shards m (s ∷ shards) = ground (
    arith,
    all-group_shards (push (key_of s) s m) shards,
    all-put (key_of s) (group (key_of s) m ++ s ∷ []) m,
  )

module _ (c : Collation) (nodes : List NodeInfo) where
  is_some-emit_cards :
      (m : Dict (List ShardInfo)) (i : ℕ) (ks : List String)
      → is_some (emit_cards c nodes m i ks) ≡ all (λ k. is_some (info_of nodes k)) ks
  unfolding emit_cards all
  is_some-emit_cards m i [] = refl
  is_some-emit_cards m i (k ∷ ks) = ground (arith, is_some-emit_cards m (i + 1) ks)

drawn : {A B : Type 0} (o : Option A) (f : A → B) → is_some (Option.map f o) ≡ is_some o
drawn none f = refl
drawn (some x) f = refl

abbrev pub same_as : Option String → String → Bool
same_as none k = false
same_as (some i) k = i === k

-- A node carries a text as its id, its name or its address, none of which counts where it is empty.
abbrev pub carries : String → NodeInfo → Bool
carries k n = truthy k && (n.id === k || n.name === k || same_as n.ip k)

-- The node of a shard is known: it has none, or one that a listed node carries.
abbrev pub is_known : List NodeInfo → Option String → Bool
is_known nodes none = true
is_known nodes (some k) = any (carries k) nodes || k === "__unassigned__"

get-put_given :
    (o : Option String) (n : NodeInfo) (m : Dict NodeInfo) (k : String)
    → is_some (get k (put_given (given o) n m)) ≡ (is_some (get k m) || (truthy k && same_as o k))
get-put_given none n m k = ground arith
get-put_given (some j) n m k = ground (arith, get-put j k n m, eq_iff j k)

is_some-infos_from :
    (m : Dict NodeInfo) (nodes : List NodeInfo) (k : String)
    → is_some (get k (infos_from m nodes)) ≡ (is_some (get k m) || any (carries k) nodes)
unfolding infos_from
is_some-infos_from m [] k = ground arith
is_some-infos_from m (n ∷ nodes) k =
    let by_id = put_given (given (some n.id)) n m in
    let by_name = put_given (given (some n.name)) n by_id in
    ground (
      arith,
      is_some-infos_from (put_given (given n.ip) n by_name) nodes k,
      get-put_given n.ip n by_name k,
      get-put_given (some n.name) n by_id k,
      get-put_given (some n.id) n m k,
    )

is_some-info_of :
    (nodes : List NodeInfo) (k : String)
    → is_some (info_of nodes k) ≡ (any (carries k) nodes || k === "__unassigned__")
unfolding info_of get
is_some-info_of nodes k = elim (Option-cases (get k (infos_from [] nodes))) [
  | inl missing ↦ rw (info_of, missing) (ground (arith, missing, is_some-infos_from [] nodes k))
  | inr (n, there) ↦ rw (info_of, there) (ground (arith, there, is_some-infos_from [] nodes k))
]

is_some-info_of_shard :
    (nodes : List NodeInfo) (o : Option String)
    → is_some (info_of nodes (or_else o "__unassigned__")) ≡ is_known nodes o
is_some-info_of_shard nodes none =
    is_some-info_of nodes "__unassigned__"
    ∙ ground (arith, eq_iff "__unassigned__" "__unassigned__")
is_some-info_of_shard nodes (some k) = is_some-info_of nodes k

-- The chart of an index can be drawn exactly when every shard has no node, or its node is the id, the
-- name or the address of a listed node, or is the text that stands for no node.
pub calculate_index_viz_layout-is_some :
    (c : Collation) (index_name : String) (nodes : List NodeInfo) (shards : List ShardInfo)
    → is_some (calculate_index_viz_layout c index_name nodes shards)
      ≡ all (λ s. is_known nodes s.node) shards
unfolding calculate_index_viz_layout all sorted_keys
calculate_index_viz_layout-is_some c index_name nodes [] = refl
calculate_index_viz_layout-is_some c index_name nodes (s ∷ shards) =
    let m = group_shards [] (s ∷ shards) in
    let known = λ (k : String). is_some (info_of nodes k) in
    drawn (emit_cards c nodes m 0 (sorted_keys c m)) _
    ∙ is_some-emit_cards c nodes m 0 (sorted_keys c m)
    ∙ all-sort (compare_keys c) known (keys m)
    ∙ all-group_shards known [] (s ∷ shards)
    ∙ all-same (λ t. known (key_of t)) (λ t. is_known nodes t.node)
        (λ t. is_some-info_of_shard nodes t.node) (s ∷ shards)
