-- ===== src/ShardOrder/Laws.antt =====
-- What the orders of frontend/src/utils/shardOrdering.ts and node-sorting.ts guarantee.
use secan.Base.{◌≡◌, refl, ap, ℕ, List, [], ◌∷◌, ◌++◌, Bool, not, keep, Ordering, compare, arith}
use secan.Base.Sort.{
  sort, insert, sort-perm, sort-IsSorted, sort_unique, IsSorted, NoTies, IsConsistent, then_by,
  first_if, then_by-IsConsistent, on-IsConsistent, compare-IsConsistent, first_if-IsConsistent,
}
use secan.Base.FirstIf.{sort-keep}
use text.Mathlib.TextEquality.{IsScalar-prop}
use mathlib.Core.List.{Perm}
use secan.Api.{ShardInfo, NodeInfo}
use secan.ShardOrder.{
  Collation, compare_shards, sort_shards, state_priority, compare_nodes, is_master_node,
  sort_nodes_master_first,
}

module _ (c : Collation) where
  compare_shards-IsConsistent : IsConsistent (compare_shards c)
  unfolding compare_shards
  compare_shards-IsConsistent =
      then_by-IsConsistent (λ a b. c.locale_compare a.index b.index) _
        (on-IsConsistent (λ (s : ShardInfo). s.index) c.locale_compare c.consistent)
        (then_by-IsConsistent (λ a b. compare a.shard b.shard) _
          (on-IsConsistent (λ (s : ShardInfo). s.shard) compare compare-IsConsistent)
          (then_by-IsConsistent (λ a b. first_if a.primary b.primary) _
            (on-IsConsistent (λ (s : ShardInfo). s.primary) first_if first_if-IsConsistent)
            (on-IsConsistent (λ (s : ShardInfo). state_priority s.state) compare
              compare-IsConsistent)))

  compare_nodes-IsConsistent : IsConsistent (compare_nodes c)
  unfolding compare_nodes
  compare_nodes-IsConsistent =
      then_by-IsConsistent (λ a b. first_if (is_master_node a) (is_master_node b)) _
        (on-IsConsistent is_master_node first_if first_if-IsConsistent)
        (on-IsConsistent (λ (n : NodeInfo). n.name) c.locale_compare c.consistent)

-- Sorting shards is a sorted reordering: nothing is lost or made up, and no shard stands after one
-- that the order puts behind it.
pub sort_shards-IsSorted :
    (c : Collation) (shards : List ShardInfo)
    → Perm (sort_shards c shards) shards × IsSorted (compare_shards c) (sort_shards c shards)
unfolding sort_shards
sort_shards-IsSorted c shards = (
  sort-perm (compare_shards c) shards,
  sort-IsSorted (compare_shards c) (compare_shards-IsConsistent c) shards,
)

abbrev by_name : Collation → NodeInfo → NodeInfo → Ordering
by_name c a b = c.locale_compare a.name b.name

-- Two lists of the same shards in any order give the same sorted list, if no two different shards
-- among them tie in the order.
pub sort_shards_unique :
    (c : Collation) (xs ys : List ShardInfo)
    → NoTies (compare_shards c) xs
    → Perm xs ys
    → sort_shards c xs ≡ sort_shards c ys
unfolding sort_shards
sort_shards_unique c xs ys ties p =
    sort_unique (compare_shards c) xs ys (hlevel IsScalar-prop) (compare_shards-IsConsistent c) ties
      p

all_tie :
    (o : Ordering) (x y : ℕ) (p q : Bool) (n m : ℕ)
    → o ≡ Ordering.eq
    → x ≡ y
    → p ≡ q
    → n ≡ m
    → then_by o (then_by (compare x y) (then_by (first_if p q) (compare n m))) ≡ Ordering.eq
all_tie o x y p q n m h i j k = rw (h, i, j, k) (ground arith)

-- Shards that differ only in their nodes, store sizes, document counts or target nodes tie, so the
-- order keeps them as they come.
pub sort_shards-tie :
    (c : Collation) (a b : ShardInfo)
    → c.locale_compare a.index b.index ≡ Ordering.eq
    → a.shard ≡ b.shard
    → a.primary ≡ b.primary
    → a.state ≡ b.state
    → sort_shards c (a ∷ b ∷ []) ≡ a ∷ b ∷ []
unfolding sort_shards compare_shards sort insert
sort_shards-tie c a b i s p t =
    rw (compare_shards, all_tie _ _ _ _ _ _ _ i s p (ap state_priority t)) refl

-- Sorting nodes puts the masters first, sorted by name, and then the other nodes, sorted by name; a
-- node counts as a master by its flag or by its role.
pub sort_nodes-masters :
    (c : Collation) (nodes : List NodeInfo)
    → sort_nodes_master_first c nodes
      ≡ sort (by_name c) (keep is_master_node nodes)
        ++ sort (by_name c) (keep (λ n. not (is_master_node n)) nodes)
unfolding sort_nodes_master_first compare_nodes
sort_nodes-masters c nodes = sort-keep is_master_node (by_name c) nodes
