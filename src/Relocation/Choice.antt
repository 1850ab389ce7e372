-- ===== src/Relocation/Choice.antt =====
-- frontend/src/pages/ClusterView.tsx: the nodes that a shard may be moved to.
use mathlib.Core.List.{append-nil, append_assoc}
use secan.Base.{
  ◌≡◌, refl, sym, ap, ◌∙◌, some, List, [], ◌∷◌, ◌++◌, Bool, true, false, not, ◌&&◌, includes, map,
  keep, find_last, or_last, or_last-none, if◌then◌else◌, arith, Bool-cases, inl, inr,
}
use secan.Api.{NodeInfo, ShardInfo}
use secan.Relocation.{Found, is_at, has_this_shard, find_step, find_destinations, nothing_found}

-- A node that may take the shard: not its own node, without a copy of it, and with the data role.
abbrev pub may_take : List ShardInfo → ShardInfo → NodeInfo → Bool
may_take shards shard node =
    not (is_at node shard) && (not (has_this_shard shards shard node) && includes node.roles "data")

module _ (shards : List ShardInfo) (shard : ShardInfo) where
  find_step-takes :
      (found : Found) (n : NodeInfo)
      → may_take shards shard n ≡ true
      → (find_step shards shard found n).valid_destinations ≡ found.valid_destinations ++ n.id ∷ []
  unfolding find_step
  find_step-takes found n h = ground (arith, h)

  find_step-skips :
      (found : Found) (n : NodeInfo)
      → may_take shards shard n ≡ false
      → (find_step shards shard found n).valid_destinations ≡ found.valid_destinations
  unfolding find_step
  find_step-skips found n h = ground (arith, h)

  find_step-source :
      (found : Found) (n : NodeInfo)
      → (find_step shards shard found n).source ≡ (if is_at n shard then some n else found.source)
  unfolding find_step
  find_step-source found n = ground arith

  find_destinations-valid :
      (found : Found) (nodes : List NodeInfo)
      → (find_destinations shards shard found nodes).valid_destinations
        ≡ found.valid_destinations
          ++ map (λ (n : NodeInfo). n.id) (keep (may_take shards shard) nodes)
  unfolding find_destinations
  find_destinations-valid found [] = sym (append-nil _)
  find_destinations-valid found (n ∷ nodes) =
      find_destinations-valid (find_step shards shard found n) nodes
      ∙ elim (Bool-cases (may_take shards shard n)) [
        | inl takes ↦
            rw (takes, find_step-takes found n takes) (append_assoc found.valid_destinations _ _)
        | inr not_it ↦ rw (not_it, find_step-skips found n not_it) refl
      ]

  find_destinations-source :
      (found : Found) (nodes : List NodeInfo)
      → (find_destinations shards shard found nodes).source
        ≡ or_last found.source (keep (λ n. is_at n shard) nodes)
  unfolding find_destinations
  find_destinations-source found [] = refl
  find_destinations-source found (n ∷ nodes) =
      find_destinations-source (find_step shards shard found n) nodes
      ∙ ap (λ o. or_last o (keep (λ n. is_at n shard) nodes)) (find_step-source found n)
      ∙ elim (Bool-cases (is_at n shard)) [ inl here ↦ rw here refl | inr away ↦ rw away refl ]

-- The valid destinations are the ids of the nodes that may take the shard, in the order of the nodes,
-- and the source is the last of the nodes that are the shard's by id or name.
pub find_destinations-keep :
    (shards : List ShardInfo) (shard : ShardInfo) (nodes : List NodeInfo)
    → ((find_destinations shards shard nothing_found nodes).valid_destinations
        ≡ map (λ (n : NodeInfo). n.id) (keep (may_take shards shard) nodes))
      × ((find_destinations shards shard nothing_found nodes).source
          ≡ find_last (λ n. is_at n shard) nodes)
find_destinations-keep shards shard nodes = (
  find_destinations-valid shards shard nothing_found nodes,
  find_destinations-source shards shard nothing_found nodes
      ∙ or_last-none (keep (λ n. is_at n shard) nodes),
)
