-- ===== src/Diff/Laws.antt =====
-- When two snapshots differ.
use secan.Base.{
  ◌≡◌, refl, ◌∙◌, ◌↔◌, String, some, List, [], ◌∷◌, map, Bool, true, false, not, ltb, includes,
  keep, length, arith, eq_iff, ◌===◌, Bool-cases, inl, inr, sym, ◌&&◌,
}
use secan.Api.{NodeInfo, IndexInfo}
use secan.Diff.{
  ClusterState, ClusterChanges, node_ids, index_names, detect_cluster_changes, has_changes,
}

-- Two lists hold the same names.
abbrev pub SameNames : List String → List String → Type 0
SameNames xs ys = (k : String) → includes xs k ≡ includes ys k

-- Every name of the first list is in the second.
abbrev Within : List String → List String → Type 0
Within xs ys = (k : String) → includes xs k ≡ true → includes ys k ≡ true

module _ {A : Type 0} (name : A → String) (known : List String) where
  abbrev fresh : List A → List A
  fresh = keep (λ x. not (includes known (name x)))

  fresh-Within : (xs : List A) → ltb 0 (length (fresh xs)) ≡ false → Within (map name xs) known
  fresh-Within [] h k e = cc
  fresh-Within (x ∷ xs) h k e = elim (Bool-cases (name x === k)) [
    | inl same ↦ ground (arith, eq_iff (name x) k)
    | inr other ↦ fresh-Within xs (ground arith) k (ground arith)
  ]

  Within-fresh : (xs : List A) → Within (map name xs) known → ltb 0 (length (fresh xs)) ≡ false
  Within-fresh [] h = refl
  Within-fresh (x ∷ xs) h =
      ground
        (arith, h (name x), eq_iff (name x) (name x), Within-fresh xs (λ k e. h k (ground arith)))

Within-antisymm : (xs ys : List String) → Within xs ys → Within ys xs → SameNames xs ys
Within-antisymm xs ys h h' k = ground (arith, h k, h' k)

-- No change is reported between two snapshots exactly when they have the same node ids and the same
-- index names; other fields, the order and repetitions play no part.
pub has_changes_iff :
    (previous current : ClusterState)
    → (has_changes (detect_cluster_changes (some previous) current) ≡ false) ↔ (
        SameNames (node_ids previous) (node_ids current)
        × SameNames (index_names previous) (index_names current))
unfolding has_changes detect_cluster_changes
has_changes_iff p c = (
  λ e. (
    Within-antisymm (node_ids p) (node_ids c)
        (fresh-Within (λ (n : NodeInfo). n.id) (node_ids c) p.nodes (ground arith))
        (fresh-Within (λ (n : NodeInfo). n.id) (node_ids p) c.nodes (ground arith)),
    Within-antisymm (index_names p) (index_names c)
        (fresh-Within (λ (i : IndexInfo). i.name) (index_names c) p.indices (ground arith))
        (fresh-Within (λ (i : IndexInfo). i.name) (index_names p) c.indices (ground arith)),
  ),
  λ (nodes, indices). ground (
    arith,
    Within-fresh (λ (n : NodeInfo). n.id) (node_ids c) p.nodes (λ k h. sym (nodes k) ∙ h),
    Within-fresh (λ (n : NodeInfo). n.id) (node_ids p) c.nodes (λ k h. nodes k ∙ h),
    Within-fresh (λ (i : IndexInfo). i.name) (index_names c) p.indices (λ k h. sym (indices k) ∙ h),
    Within-fresh (λ (i : IndexInfo). i.name) (index_names p) c.indices (λ k h. indices k ∙ h),
  ),
)

includes-map-keep :
    {A : Type 0} (name : A → String) (p : String → Bool) (xs : List A) (k : String)
    → includes (map name (keep (λ x. p (name x)) xs)) k ≡ (includes (map name xs) k && p k)
includes-map-keep name p [] k = refl
includes-map-keep name p (x ∷ xs) k =
    ground (arith, includes-map-keep name p xs k, eq_iff (name x) k)

-- A node id is reported as added exactly when only the current snapshot has it, and as removed
-- exactly when only the previous one has it; so for the names of created and deleted indices.
pub detect_cluster_changes-ids :
    (previous current : ClusterState) (c : ClusterChanges) (k : String)
    → detect_cluster_changes (some previous) current ≡ some c
    → (includes (map (λ (n : NodeInfo). n.id) c.nodes_added) k
        ≡ (includes (node_ids current) k && not (includes (node_ids previous) k)))
      × (includes (map (λ (n : NodeInfo). n.id) c.nodes_removed) k
          ≡ (includes (node_ids previous) k && not (includes (node_ids current) k)))
      × (includes (map (λ (i : IndexInfo). i.name) c.indices_created) k
          ≡ (includes (index_names current) k && not (includes (index_names previous) k)))
      × (includes (map (λ (i : IndexInfo). i.name) c.indices_deleted) k
          ≡ (includes (index_names previous) k && not (includes (index_names current) k)))
unfolding detect_cluster_changes
detect_cluster_changes-ids p n c k e =
    let same : record {
      nodes_added = keep (λ x. not (includes (node_ids p) x.id)) n.nodes;
      nodes_removed = keep (λ x. not (includes (node_ids n) x.id)) p.nodes;
      indices_created = keep (λ x. not (includes (index_names p) x.name)) n.indices;
      indices_deleted = keep (λ x. not (includes (index_names n) x.name)) p.indices;
    }
        ≡ c =
      cc in
    rw (← same) (
      includes-map-keep (λ (x : NodeInfo). x.id) (λ j. not (includes (node_ids p) j)) n.nodes k,
      includes-map-keep (λ (x : NodeInfo). x.id) (λ j. not (includes (node_ids n) j)) p.nodes k,
      includes-map-keep (λ (x : IndexInfo). x.name) (λ j. not (includes (index_names p) j))
          n.indices k,
      includes-map-keep (λ (x : IndexInfo). x.name) (λ j. not (includes (index_names n) j))
          p.indices k,
    )
