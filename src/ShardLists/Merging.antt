-- ===== src/ShardLists/Merging.antt =====
-- frontend/src/pages/ClusterView.tsx, `mergeShardLists`: which shards stay.
use mathlib.Core.List.{append-nil, append_assoc as list_assoc}
use secan.Base.{
  ℕ, ◌+◌, ◌≤◌, ◌<◌, ◌≡◌, ◌≢◌, refl, sym, ap, ◌∙◌, subst, String, Option, none, some, List, [], ◌∷◌,
  ◌++◌, true, false, Bool-cases, Option-cases, inl, inr, arith, if◌then◌else◌, ◌===◌, eq_iff, ◌||◌,
  given, or_else, is_some, includes, All,
}
use secan.Base.Dict.{Dict, get, put, get-put}
use secan.Base.Decimal.{Without}
use secan.Api.{ShardInfo}
use secan.ShardLists.Keys.{node_key≢unassigned_key, unassigned_key-injective}
use secan.ShardLists.{
  base_key, node_key, unassigned_key, Merged, counted, set_absent, merge_shard, merge_each,
  map_values, merge_shard_lists,
}

-- The node of a shard, if it has one, has no colon in its name.
abbrev pub Plain : ShardInfo → Type 0
Plain s = (node : String) → given s.node ≡ some node → Without b':' node

-- The shards that stay: each one without a node, and the first on its node of those with one index,
-- number and primary flag.
unfoldable pub first_copies : List String → List ShardInfo → List ShardInfo
first_copies seen [] = []
first_copies seen (s ∷ rest) = elim (given s.node) [
  | none ↦ s ∷ first_copies seen rest
  | some node ↦ elim (includes seen (node_key (base_key s) node)) [
    | true ↦ first_copies seen rest
    | false ↦ s ∷ first_copies (node_key (base_key s) node ∷ seen) rest
  ]
]

put_absent :
    {V : Type 0} (k : String) (v : V) (m : Dict V) → get k m ≡ none → put k v m ≡ m ++ (k, v) ∷ []
unfolding get put
put_absent k v [] h = refl
put_absent k v ((j, w) ∷ m) h = ground (arith, put_absent k v m)

map_values-append :
    (m : Dict ShardInfo) (k : String) (v : ShardInfo)
    → map_values (m ++ (k, v) ∷ []) ≡ map_values m ++ v ∷ []
map_values-append [] k v = refl
map_values-append ((j, w) ∷ m) k v = ap (λ vs. w ∷ vs) (map_values-append m k v)

module _ (k : String) (s : ShardInfo) (m : Dict ShardInfo) where
  set_absent-other : (j : String) → (k === j) ≡ false → get j (set_absent k s m) ≡ get j m
  set_absent-other j other = ground (arith, get-put k j s m)

  is_some-set_absent :
      (j : String) → is_some (get j (set_absent k s m)) ≡ (k === j || is_some (get j m))
  is_some-set_absent j = ground (arith, get-put k j s m, eq_iff k j)

  map_values-set_absent : get k m ≡ none → map_values (set_absent k s m) ≡ map_values m ++ s ∷ []
  map_values-set_absent absent =
      rw absent (ap map_values (put_absent k s m absent) ∙ map_values-append m k s)

-- The keys of the shards with a node that the map has, and the numbers that no shard without one has.
abbrev HasSeen : Merged → List String → Type 0
HasSeen m seen =
    (s : ShardInfo) (node : String)
    → Without b':' node
    → is_some (get (node_key (base_key s) node) m.merged_map)
      ≡ includes seen (node_key (base_key s) node)

abbrev Fresh : Merged → Type 0
Fresh m =
    (s : ShardInfo) (n : ℕ)
    → counted (base_key s) m.counters ≤ n
    → get (unassigned_key (base_key s) n) m.merged_map ≡ none

-- What a bound on a number after the one of a key was raised says.
counted-put :
    (b j : String) (n : ℕ) (c : Dict ℕ)
    → counted j (put b (counted b c + 1) c) ≤ n
    → (b ≡ j → counted b c < n) × (counted j c ≤ n)
counted-put b j n c small = elim (Bool-cases (b === j)) [
  | inl same ↦
      let e : b ≡ j = (eq_iff b j).0 same in
      let less : counted b c + 1 ≤ n =
        subst (λ v. v ≤ n) (ap (λ o. or_else o 0) (get-put b j (counted b c + 1) c) ∙ raised same)
          small in
      (λ _. omega arith, subst (λ k. counted k c ≤ n) e (omega arith))
  | inr other ↦
      let kept : counted j c ≤ n =
        subst (λ v. v ≤ n)
          (ap (λ o. or_else o 0) (get-put b j (counted b c + 1) c) ∙ left_as_is other) small in
      (λ e. cc (other, (eq_iff b j).1 e), kept)
]
  where
    raised :
        (b === j) ≡ true
        → or_else (if b === j then some (counted b c + 1) else get j c) 0 ≡ counted b c + 1
    raised e = rw e refl

    left_as_is :
        (b === j) ≡ false
        → or_else (if b === j then some (counted b c + 1) else get j c) 0 ≡ counted j c
    left_as_is e = rw e refl

not_same : (x y : String) → x ≢ y → (x === y) ≡ false
not_same x y differ = elim (Bool-cases (x === y)) [
  | inl same ↦ absurd (differ ((eq_iff x y).0 same))
  | inr other ↦ other
]

module _ (s : ShardInfo) (m : Merged) (seen : List String) (has : HasSeen m seen)
    (fresh : Fresh m) where
  abbrev with_unassigned : Merged
  with_unassigned =
      let b = base_key s in
      let n = counted b m.counters in
      record {
        counters = put b (n + 1) m.counters;
        merged_map = set_absent (unassigned_key b n) s m.merged_map;
      }

  with_unassigned-HasSeen : HasSeen with_unassigned seen
  with_unassigned-HasSeen t node plain =
      ap is_some (
        set_absent-other (unassigned_key (base_key s) (counted (base_key s) m.counters)) s
          m.merged_map (node_key (base_key t) node)
          (not_same _ _ (λ e.
            node_key≢unassigned_key t s node (counted (base_key s) m.counters) plain (sym e))))
      ∙ has t node plain

  with_unassigned-Fresh : Fresh with_unassigned
  with_unassigned-Fresh t n small =
      let (same, less) = counted-put (base_key s) (base_key t) n m.counters small in
      let k = counted (base_key s) m.counters in
      set_absent-other (unassigned_key (base_key s) k) s m.merged_map
        (unassigned_key (base_key t) n)
        (not_same _ _ (λ e.
          let (b, number) = unassigned_key-injective s t k n e in let le = same b in omega arith))
      ∙ fresh t n less

  module _ (node : String) where
    abbrev with_node : Merged
    with_node = record m { merged_map = set_absent (node_key (base_key s) node) s m.merged_map }

    with_node-Fresh : Without b':' node → Fresh with_node
    with_node-Fresh plain t n small =
        set_absent-other (node_key (base_key s) node) s m.merged_map (unassigned_key (base_key t) n)
          (not_same _ _ (node_key≢unassigned_key s t node n plain))
        ∙ fresh t n small

    with_node-HasSeen : HasSeen with_node (node_key (base_key s) node ∷ seen)
    with_node-HasSeen t other plain =
        is_some-set_absent (node_key (base_key s) node) s m.merged_map (node_key (base_key t) other)
        ∙ ap (λ b. node_key (base_key s) node === node_key (base_key t) other || b)
            (has t other plain)

merge_shard-unassigned :
    (s : ShardInfo) (m : Merged) (seen : List String) (has : HasSeen m seen) (fresh : Fresh m)
    → given s.node ≡ none
    → merge_shard s m ≡ with_unassigned s m seen has fresh
unfolding merge_shard
merge_shard-unassigned s m seen has fresh e = rw (merge_shard, e) refl

merge_shard-node :
    (s : ShardInfo) (m : Merged) (seen : List String) (has : HasSeen m seen) (fresh : Fresh m)
    (node : String)
    → given s.node ≡ some node
    → merge_shard s m ≡ with_node s m seen has fresh node
unfolding merge_shard
merge_shard-node s m seen has fresh node e = rw (merge_shard, e) refl

module _ (seen : List String) (s : ShardInfo) (rest : List ShardInfo) where
  first_copies-unassigned :
      given s.node ≡ none → first_copies seen (s ∷ rest) ≡ s ∷ first_copies seen rest
  unfolding first_copies
  first_copies-unassigned e = rw (first_copies, e) refl

  module _ (node : String) (e : given s.node ≡ some node) where
    first_copies-again :
        includes seen (node_key (base_key s) node) ≡ true
        → first_copies seen (s ∷ rest) ≡ first_copies seen rest
    unfolding first_copies
    first_copies-again before = rw (first_copies, e) (rw before refl)

    first_copies-first :
        includes seen (node_key (base_key s) node) ≡ false
        → first_copies seen (s ∷ rest) ≡ s ∷ first_copies (node_key (base_key s) node ∷ seen) rest
    unfolding first_copies
    first_copies-first first = rw (first_copies, e) (rw first refl)

set_absent-here :
    (k : String) (s : ShardInfo) (m : Dict ShardInfo)
    → is_some (get k m) ≡ true
    → set_absent k s m ≡ m
set_absent-here k s m e = rw e refl

is_some-none : {A : Type 0} (o : Option A) → is_some o ≡ false → o ≡ none
is_some-none none e = refl
is_some-none (some x) e = absurd (cc e)

merge_each-first_copies :
    (ss : List ShardInfo) (m : Merged) (seen : List String)
    → All Plain ss
    → HasSeen m seen
    → Fresh m
    → map_values (merge_each ss m).merged_map ≡ map_values m.merged_map ++ first_copies seen ss
unfolding merge_each first_copies
merge_each-first_copies [] m seen plain has fresh = sym (append-nil _)
merge_each-first_copies (s ∷ ss) m seen plain has fresh = elim (Option-cases (given s.node)) [
  | inl unassigned ↦
      let absent = fresh s (counted (base_key s) m.counters) (omega arith) in
      ap (λ n. map_values (merge_each ss n).merged_map)
        (merge_shard-unassigned s m seen has fresh unassigned)
      ∙ merge_each-first_copies ss (with_unassigned s m seen has fresh) seen plain.1
          (with_unassigned-HasSeen s m seen has fresh) (with_unassigned-Fresh s m seen has fresh)
      ∙ ap (λ vs. vs ++ first_copies seen ss)
          (map_values-set_absent (unassigned_key (base_key s) (counted (base_key s) m.counters)) s
            m.merged_map absent)
      ∙ list_assoc (map_values m.merged_map) (s ∷ []) (first_copies seen ss)
      ∙ ap (λ vs. map_values m.merged_map ++ vs)
          (sym (first_copies-unassigned seen s ss unassigned))
  | inr (node, assigned) ↦
      let key = node_key (base_key s) node in
      let known = has s node (plain.0 node assigned) in
      elim (Bool-cases (includes seen key)) [
        | inl before ↦
            ap (λ n. map_values (merge_each ss n).merged_map)
              (merge_shard-node s m seen has fresh node assigned ∙ λ i. record m {
                merged_map = set_absent-here key s m.merged_map (known ∙ before) i;
              })
            ∙ merge_each-first_copies ss m seen plain.1 has fresh
            ∙ ap (λ vs. map_values m.merged_map ++ vs)
                (sym (first_copies-again seen s ss node assigned before))
        | inr first ↦
            ap (λ n. map_values (merge_each ss n).merged_map)
              (merge_shard-node s m seen has fresh node assigned)
            ∙ merge_each-first_copies ss (with_node s m seen has fresh node) (key ∷ seen) plain.1
                (with_node-HasSeen s m seen has fresh node)
                (with_node-Fresh s m seen has fresh node (plain.0 node assigned))
            ∙ ap (λ vs. vs ++ first_copies (key ∷ seen) ss)
                (map_values-set_absent key s m.merged_map
                  (is_some-none (get key m.merged_map) (known ∙ first)))
            ∙ list_assoc (map_values m.merged_map) (s ∷ []) (first_copies (key ∷ seen) ss)
            ∙ ap (λ vs. map_values m.merged_map ++ vs)
                (sym (first_copies-first seen s ss node assigned first))
      ]
]

-- The merged list has the shards of both lists in their order: all of those without a node, however
-- alike they are, and of those with a node the first of each index, number, primary flag and node. The
-- names of the nodes have no colon.
pub merge_shard_lists-first_copies :
    (all_shards unassigned : Option (List ShardInfo))
    → All Plain (or_else all_shards [] ++ or_else unassigned [])
    → merge_shard_lists all_shards unassigned
      ≡ first_copies [] (or_else all_shards [] ++ or_else unassigned [])
unfolding merge_shard_lists get
merge_shard_lists-first_copies all_shards unassigned plain =
    merge_each-first_copies (or_else all_shards [] ++ or_else unassigned [])
      (record { counters = []; merged_map = [] }) [] plain (λ s node h. refl) (λ s n h. refl)
