-- ===== src/ShardLists/Keys.antt =====
-- frontend/src/pages/ClusterView.tsx, `mergeShardLists`: the keys of shards with and without a node.
use text.Mathlib.TextLemmas.{append_assoc}
use secan.Base.{
  ℕ, ◌≡◌, ◌≢◌, sym, ap, ◌∙◌, String, Bool, true, false, arith, ◌+++◌, eq_iff, decimal, show_bool,
}
use secan.Base.Decimal.{Without, split_last, decimal-Without, decimal-injective, show_bool-Without}
use secan.Api.{ShardInfo}
use secan.ShardLists.{base_key, node_key, unassigned_key}

unassigned_key-front :
    (b : String) (n : ℕ) → unassigned_key b n ≡ b +++ ":__unassigned__" +++ ":" +++ decimal n
unassigned_key-front b n = ap (λ s. s +++ decimal n) (sym (append_assoc b ":__unassigned__" ":"))

unassigned-Without : Without b':' "__unassigned__"
unassigned-Without = omega arith

flag≢unassigned : (b : Bool) → show_bool b ≢ "__unassigned__"
flag≢unassigned true e = cc ((eq_iff "true" "__unassigned__").1 e)
flag≢unassigned false e = cc ((eq_iff "false" "__unassigned__").1 e)

module _ (s u : ShardInfo) where
  pub node_key≢unassigned_key :
      (node : String) (n : ℕ)
      → Without b':' node
      → node_key (base_key s) node ≢ unassigned_key (base_key u) n
  node_key≢unassigned_key node n h e =
      let (front, last) =
        split_last ":" (base_key s) node (base_key u +++ ":__unassigned__") (decimal n) h
          (decimal-Without b':' n (omega arith)) (e ∙ unassigned_key-front (base_key u) n) in
      let (before, flag) =
        split_last ":" (s.index +++ ":" +++ decimal s.shard) (show_bool s.primary) (base_key u)
          "__unassigned__" (show_bool-Without s.primary) unassigned-Without
          (front ∙ sym (append_assoc (base_key u) ":" "__unassigned__")) in
      flag≢unassigned s.primary flag

  pub unassigned_key-injective :
      (n k : ℕ)
      → unassigned_key (base_key s) n ≡ unassigned_key (base_key u) k
      → (base_key s ≡ base_key u) × (n ≡ k)
  unassigned_key-injective n k e =
      let (front, last) =
        split_last ":" (base_key s +++ ":__unassigned__") (decimal n)
          (base_key u +++ ":__unassigned__") (decimal k) (decimal-Without b':' n (omega arith))
          (decimal-Without b':' k (omega arith))
          (sym (unassigned_key-front (base_key s) n) ∙ e ∙ unassigned_key-front (base_key u) k) in
      let (before, same) =
        split_last ":" (base_key s) "__unassigned__" (base_key u) "__unassigned__"
          unassigned-Without unassigned-Without
          (append_assoc (base_key s) ":" "__unassigned__"
            ∙ front
            ∙ sym (append_assoc (base_key u) ":" "__unassigned__")) in
      (before, decimal-injective n k last)
