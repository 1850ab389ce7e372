-- ===== src/ShardGrid/Cells.antt =====
-- What each cell of the grid holds.
use secan.Base.{
  ℕ, zero, suc, ◌<◌, ◌≡◌, refl, ap, ◌∙◌, sym, String, Option, none, some, List, [], ◌∷◌, ◌++◌, map,
  arith, if◌then◌else◌, ◌===◌, length, inl, inr, Option-cases, flat_map, get_elem?, holds, ◌==◌,
  ◌&&◌, true, Bool,
}
use mathlib.Core.List.{append-nil, append_assoc}
use secan.Base.Dict.{Dict, get}
use secan.Api.{NodeInfo, ShardInfo, NodeWithShards}
use secan.ShardGrid.{
  build_node_identifier_map, nodes_by_name, push_at, assigned_node, name_of, destination_shard,
  relocation_target, add_destination, assign_shard, assign_shards, empty_node,
  parse_nodes_with_shards,
}
use secan.ShardGrid.Identifiers.{named, name_of-position}
use secan.ShardGrid.Pushes.{
  cell, infos, infos-push_at, cell-push_at, length-infos, infos-map-empty_node, cell-map-empty_node,
}

-- The position of the node that a reference stands for.
unfoldable pub locate : List NodeInfo → Option String → Option ℕ
locate nodes ref = elim (name_of (build_node_identifier_map nodes) ref) [
  | none ↦ none
  | some name ↦ get name (nodes_by_name nodes)
]

-- The shards that one position and index receive from one shard of the cluster.
abbrev pub at_position : Option ℕ → ℕ → String → ShardInfo → List ShardInfo
at_position none i k s = []
at_position (some j) i k s = if j == i && s.index === k then s ∷ [] else []

abbrev pub contribution : List NodeInfo → ℕ → String → ShardInfo → List ShardInfo
contribution nodes i k s = elim (locate nodes (assigned_node s)) [
  | none ↦ []
  | some j ↦
      at_position (some j) i k s
      ++ at_position (locate nodes (relocation_target s)) i k (destination_shard s)
]

holds-lt-length :
    (p : NodeInfo → Bool) (nodes : List NodeInfo) (d : ℕ)
    → holds p (get_elem? nodes d) ≡ true
    → d < length nodes
holds-lt-length p [] d h = cc
holds-lt-length p (n ∷ ns) zero h = omega arith
holds-lt-length p (n ∷ ns) (suc d) h = omega (arith, holds-lt-length p ns d h)

-- The result of a round: the nodes stay, and each cell grows at its end.
abbrev Grows : List NodeWithShards → (ℕ → String → List ShardInfo) → List NodeWithShards → Type 0
Grows grid more grid' =
    (infos grid' ≡ infos grid) × ((i : ℕ) (k : String) → cell i k grid' ≡ cell i k grid ++ more i k)

abbrev ids_of : List NodeInfo → Dict String
ids_of = build_node_identifier_map

pub locate-lt-length :
    (nodes : List NodeInfo) (ref : Option String) (d : ℕ)
    → locate nodes ref ≡ some d
    → d < length nodes
unfolding locate
locate-lt-length nodes ref d e = elim (Option-cases (name_of (ids_of nodes) ref)) [
  | inl missing ↦ ground arith
  | inr (v, found) ↦
      let (p, at, hold, _) = name_of-position nodes ref v found in
      let same : p ≡ d = ground arith in rw (← same) (holds-lt-length (named v) nodes p hold)
]

module _ (nodes : List NodeInfo) (s : ShardInfo) (grid : List NodeWithShards) where
  add_destination-locate :
      add_destination (ids_of nodes) (nodes_by_name nodes) s grid
      ≡ elim (locate nodes (relocation_target s)) [
        | none ↦ grid
        | some j ↦ push_at j s.index (destination_shard s) grid
      ]
  unfolding add_destination locate
  add_destination-locate = ground arith

  -- No reference leads to a name without a node, so the assertion holds.
  assign_shard-locate :
      assign_shard (ids_of nodes) (nodes_by_name nodes) s grid
      ≡ elim (locate nodes (assigned_node s)) [
        | none ↦ some grid
        | some i ↦
            some (add_destination (ids_of nodes) (nodes_by_name nodes) s (push_at i s.index s grid))
      ]
  unfolding assign_shard locate
  assign_shard-locate = elim (Option-cases (name_of (ids_of nodes) (assigned_node s))) [
    | inl missing ↦ ground arith
    | inr (v, found) ↦
        let (p, at, _, _) = name_of-position nodes (assigned_node s) v found in ground arith
  ]

  add_destination-Grows :
      infos grid ≡ nodes
      → Grows grid
          (λ i k. at_position (locate nodes (relocation_target s)) i k (destination_shard s))
          (add_destination (ids_of nodes) (nodes_by_name nodes) s grid)
  unfolding destination_shard
  add_destination-Grows e = elim (Option-cases (locate nodes (relocation_target s))) [
    | inl missing ↦ rw (add_destination-locate, missing) (refl, λ i k. sym (append-nil _))
    | inr (d, found) ↦
        rw (add_destination-locate, found)
          (
            infos-push_at d s.index (destination_shard s) grid,
            λ i k.
                cell-push_at d s.index (destination_shard s) grid i k
                  (omega (arith, locate-lt-length nodes _ d found, ap length e, length-infos grid)),
          )
  ]

module _ (nodes : List NodeInfo) where
  assign_shard-Grows :
      (s : ShardInfo) (grid : List NodeWithShards)
      → infos grid ≡ nodes
      → (grid' : List NodeWithShards) × (assign_shard (ids_of nodes) (nodes_by_name nodes) s grid
          ≡ some grid')
        × Grows grid (λ i k. contribution nodes i k s) grid'
  assign_shard-Grows s grid e = elim (Option-cases (locate nodes (assigned_node s))) [
    | inl missing ↦ (
      grid,
      rw (assign_shard-locate nodes s grid, missing),
      (refl, λ i k. rw (missing, contribution) (sym (append-nil _))),
    )
    | inr (d, found) ↦
        let placed = push_at d s.index s grid in
        let kept = infos-push_at d s.index s grid ∙ e in
        let (same, more) = add_destination-Grows nodes s placed kept in
        (
          add_destination (ids_of nodes) (nodes_by_name nodes) s placed,
          rw (assign_shard-locate nodes s grid, found),
          (
            same ∙ infos-push_at d s.index s grid,
            λ i k.
                rw (found, contribution)
                  (more i k
                    ∙ ap
                        (λ c.
                          c
                          ++ at_position (locate nodes (relocation_target s)) i k
                              (destination_shard s))
                        (cell-push_at d s.index s grid i k (
                          omega (
                            arith,
                            locate-lt-length nodes _ d found,
                            ap length e,
                            length-infos grid,
                          )))
                    ∙ append_assoc (cell i k grid) _ _),
          ),
        )
  ]

  assign_shards-Grows :
      (shards : List ShardInfo) (grid : List NodeWithShards)
      → infos grid ≡ nodes
      → (grid' : List NodeWithShards) × (assign_shards
            (ids_of nodes)
            (nodes_by_name nodes)
            shards
            grid
          ≡ some grid')
        × Grows grid (λ i k. flat_map (contribution nodes i k) shards) grid'
  unfolding assign_shards
  assign_shards-Grows [] grid e = (grid, refl, (refl, λ i k. sym (append-nil _)))
  assign_shards-Grows (s ∷ shards) grid e =
      let (grid', run, (same, more)) = assign_shard-Grows s grid e in
      let (grid″, runs, (same', more')) = assign_shards-Grows shards grid' (same ∙ e) in
      (
        grid″,
        rw (run, assign_shards) runs,
        (
          same' ∙ same,
          λ i k.
              more' i k
              ∙ ap (λ c. c ++ flat_map (contribution nodes i k) shards) (more i k)
              ∙ append_assoc (cell i k grid) (contribution nodes i k s) _,
        ),
      )

-- The parser never throws, and it keeps the nodes in their order. The cell of a node's position and
-- an index name holds, in the order of the input, the shards of the index whose node reference
-- resolves to that position, and the destination copies of those relocating shards whose target
-- resolves to it.
pub parse_nodes_with_shards-cells :
    (nodes : List NodeInfo) (shards : List ShardInfo)
    → (grid : List NodeWithShards) × (parse_nodes_with_shards nodes shards ≡ some grid)
      × (infos grid ≡ nodes)
      × ((i : ℕ) (k : String) → cell i k grid ≡ flat_map (contribution nodes i k) shards)
unfolding parse_nodes_with_shards
parse_nodes_with_shards-cells nodes shards =
    let e = infos-map-empty_node nodes in
    let (grid, run, (same, more)) = assign_shards-Grows nodes shards (map empty_node nodes) e in
    (
      grid,
      run,
      same ∙ e,
      λ i k.
          more i k
          ∙ ap (λ c. c ++ flat_map (contribution nodes i k) shards) (cell-map-empty_node nodes i k),
    )
