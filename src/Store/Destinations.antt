-- ===== src/Store/Destinations.antt =====
-- The nodes that a shard may be moved to.
use secan.Base.{
  ℕ, zero, suc, ◌≡◌, refl, ◌∙◌, ◌≢◌, ◌⊎◌, inl, inr, String, some, List, [], ◌∷◌, arith, Bool, true,
  false, ◌==◌, ◌===◌, eq_iff, any, All, includes, holds, get_elem?, Bool-cases, ◌||◌, ◌&&◌, not,
  if◌then◌else◌, Option-cases, ap, sym, ◌↔◌,
}
use secan.Base.Dict.{Dict, get, put, get-put, group}
use secan.Api.{ShardInfo, NodeWithShards}
use secan.Store.{
  destination_indicator, add_valid_destination, valid_destinations_from,
  calculate_valid_destinations,
}

-- A node that may receive the shard: it is not the shard's node, holds no copy of the shard, and has
-- the data role.
pub record IsDestination (shard : ShardInfo) (node : NodeWithShards) : Type 0 where
  pub other_id : shard.node ≢ some node.id
  pub other_name : shard.node ≢ some node.name
  pub no_copy : All (λ s. s.shard ≢ shard.shard) (group shard.index node.shards)
  pub data_role : includes node.roles "data" ≡ true

no_copy_iff :
    (n : ℕ) (xs : List ShardInfo) → any (λ s. s.shard == n) xs ≡ false → All (λ s. s.shard ≢ n) xs
no_copy_iff n [] h = tt
no_copy_iff n (x ∷ xs) h = (λ e. ground arith, no_copy_iff n xs (ground arith))

copy_of :
    (n : ℕ) (xs : List ShardInfo) → All (λ s. s.shard ≢ n) xs → any (λ s. s.shard == n) xs ≡ false
copy_of n [] h = refl
copy_of n (x ∷ xs) h = ground (arith, h.0, copy_of n xs h.1)

allowed : ShardInfo → NodeWithShards → Bool
allowed shard node =
    not (holds (λ ref. node.id === ref || node.name === ref) shard.node)
    && not (any (λ s. s.shard == shard.shard) (group shard.index node.shards))
    && includes node.roles "data"

add_valid_destination-allowed :
    (shard : ShardInfo) (m : Dict ShardInfo) (node : NodeWithShards)
    → add_valid_destination shard m node
      ≡ (if allowed shard node then put node.id (destination_indicator shard node.id) m else m)
unfolding add_valid_destination allowed
add_valid_destination-allowed shard m node = ground arith

allowed-IsDestination :
    (shard : ShardInfo) (node : NodeWithShards)
    → allowed shard node ≡ true
    → IsDestination shard node
unfolding allowed
allowed-IsDestination shard node h = record {
  other_id = λ e. ground (arith, eq_iff node.id node.id);
  other_name = λ e. ground (arith, eq_iff node.name node.name);
  no_copy = no_copy_iff shard.shard (group shard.index node.shards) (ground arith);
  data_role = ground arith;
}

IsDestination-allowed :
    (shard : ShardInfo) (node : NodeWithShards)
    → IsDestination shard node
    → allowed shard node ≡ true
unfolding allowed
IsDestination-allowed shard node d = elim (Option-cases shard.node) [
  | inl absent ↦ ground (arith, copy_of shard.shard (group shard.index node.shards) d.no_copy)
  | inr (ref, present) ↦ ground (
    arith,
    copy_of shard.shard (group shard.index node.shards) d.no_copy,
    eq_iff node.id ref,
    eq_iff node.name ref,
  )
]

add_valid_destination-get :
    (shard : ShardInfo) (m : Dict ShardInfo) (node : NodeWithShards) (k : String)
    → get k (add_valid_destination shard m node) ≡ (
        if allowed shard node && node.id === k
        then some (destination_indicator shard k)
        else get k m)
add_valid_destination-get shard m node k =
    rw (add_valid_destination-allowed shard m node)
      (ground (arith, get-put node.id k (destination_indicator shard node.id) m, eq_iff node.id k))

module _ (shard : ShardInfo) (k : String) where
  destinations_kept :
      (m : Dict ShardInfo) (nodes : List NodeWithShards)
      → get k m ≡ some (destination_indicator shard k)
      → get k (valid_destinations_from shard m nodes) ≡ some (destination_indicator shard k)
  unfolding valid_destinations_from
  destinations_kept m [] e = e
  destinations_kept m (node ∷ nodes) e =
      destinations_kept (add_valid_destination shard m node) nodes
        (ground (arith, add_valid_destination-get shard m node k))

  destinations_complete :
      (m : Dict ShardInfo) (nodes : List NodeWithShards) (i : ℕ) (node : NodeWithShards)
      → get_elem? nodes i ≡ some node
      → node.id ≡ k
      → allowed shard node ≡ true
      → get k (valid_destinations_from shard m nodes) ≡ some (destination_indicator shard k)
  unfolding valid_destinations_from
  destinations_complete m [] i node at same ok = cc
  destinations_complete m (first ∷ nodes) zero node at same ok =
      let e : first ≡ node = ground arith in
      destinations_kept (add_valid_destination shard m first) nodes
        (add_valid_destination-get shard m first k ∙ rw (e, ok) (ground (arith, eq_iff node.id k)))
  destinations_complete m (first ∷ nodes) (suc i) node at same ok =
      destinations_complete (add_valid_destination shard m first) nodes i node at same ok

  destinations_sound :
      (m : Dict ShardInfo) (nodes : List NodeWithShards) (d : ShardInfo)
      → get k (valid_destinations_from shard m nodes) ≡ some d
      → (get k m ≡ some d)
        ⊎ ((i : ℕ) × (node : NodeWithShards) × (get_elem? nodes i ≡ some node)
            × (node.id ≡ k)
            × (allowed shard node ≡ true)
            × (d ≡ destination_indicator shard k))
  unfolding valid_destinations_from
  destinations_sound m [] d e = inl e
  destinations_sound m (node ∷ nodes) d e =
      elim (destinations_sound (add_valid_destination shard m node) nodes d e) [
        | inr (i, n, at, same, ok, value) ↦ inr (suc i, n, at, same, ok, value)
        | inl early ↦ elim (Bool-cases (allowed shard node && node.id === k)) [
          | inl here ↦ inr (
            0,
            node,
            refl,
            ground (arith, eq_iff node.id k),
            ground arith,
            ground (arith, add_valid_destination-get shard m node k),
          )
          | inr other ↦ inl (ground (arith, add_valid_destination-get shard m node k))
        ]
      ]

-- The destination map has an entry for a key exactly when the key is the id of a listed node that
-- may receive the shard, and the entry is the shard on that node, shown as started.
pub calculate_valid_destinations_iff :
    (shard : ShardInfo) (nodes : List NodeWithShards) (k : String) (d : ShardInfo)
    → (get k (calculate_valid_destinations shard nodes) ≡ some d) ↔ (
        (d ≡ record shard { node = some k; state = "STARTED" })
        × (i : ℕ) × (node : NodeWithShards) × (get_elem? nodes i ≡ some node)
        × (node.id ≡ k)
        × IsDestination shard node)
unfolding calculate_valid_destinations destination_indicator get
calculate_valid_destinations_iff shard nodes k d = (
  λ e. elim (destinations_sound shard k [] nodes d e) [
    | inl none_yet ↦ cc none_yet
    | inr (i, node, at, same, ok, value) ↦
        (value, i, node, at, same, allowed-IsDestination shard node ok)
  ],
  λ (value, i, node, at, same, dest).
      destinations_complete shard k [] nodes i node at same (IsDestination-allowed shard node dest)
      ∙ ap some (sym value),
)
