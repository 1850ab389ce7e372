-- ===== src/ShardLists/Stats.antt =====
-- frontend/src/pages/ClusterView.tsx: the numbers of the cards over the topology.
use secan.Base.{
  ℕ, ◌≡◌, refl, ◌+◌, ◌≤◌, String, List, [], ◌∷◌, Bool, ◌===◌, arith, length, keep,
  length-keep_split,
}
use secan.Api.{ShardInfo}
use secan.ShardLists.{ShardStats, ShardSummary, shard_stats, passes_filters}

abbrev added_apart : List ShardInfo → ShardStats → ℕ
added_apart [] stats = stats.unassigned_count
added_apart (s ∷ rest) stats = 0

length-keep_le : {A : Type 0} (p : A → Bool) (xs : List A) → length (keep p xs) ≤ length xs
length-keep_le p [] = omega arith
length-keep_le p (x ∷ xs) = ground (arith, length-keep_le p xs)

-- Primary and replica shards add up to the shards where the shards are loaded; where only the summary is,
-- the unassigned ones are added to them. The unassigned shards are never more than the shards.
pub shard_stats-sum :
    (matches_wildcard : String → String → Bool) (states : List String)
    (index_filter node_filter : String) (merged : List ShardInfo) (summary : List ShardSummary)
    (unassigned : List ShardInfo)
    → let stats =
        shard_stats matches_wildcard states index_filter node_filter merged summary unassigned in
      (stats.shard_count ≡ stats.primary_count + stats.replica_count + added_apart merged stats)
      × (stats.unassigned_count ≤ stats.shard_count)
unfolding shard_stats
shard_stats-sum mw states i n [] summary unassigned = (refl, omega arith)
shard_stats-sum mw states i n (m ∷ merged) summary unassigned =
    let filtered = keep (passes_filters mw states i n) (m ∷ merged) in
    let split = length-keep_split (λ (s : ShardInfo). s.primary) filtered in
    (omega arith, length-keep_le (λ (s : ShardInfo). s.state === "UNASSIGNED") filtered)
