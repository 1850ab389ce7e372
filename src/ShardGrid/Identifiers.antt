-- ===== src/ShardGrid/Identifiers.antt =====
-- The identifier map and the positions of the nodes.
use secan.Base.{
  ℕ, zero, suc, ◌+◌, ◌≡◌, refl, String, Option, none, some, List, [], ◌∷◌, arith, if◌then◌else◌,
  ◌===◌, given, eq_iff, ◌⊎◌, ◌∙◌, ◌≢◌, includes, All, ap, any, holds, get_elem?, drop, Bool, true,
  false, inl, inr, Bool-cases, Option-cases,
}
use secan.Base.Dict.{Dict, get, put, get-put}
use secan.Api.{NodeInfo}
use secan.ShardGrid.{
  set_identifiers, name_of, identifiers_from, build_node_identifier_map, positions_from,
  nodes_by_name,
}

abbrev pub named : String → NodeInfo → Bool
named v node = node.name === v

positions_from_kept :
    (i : ℕ) (m : Dict ℕ) (nodes : List NodeInfo) (v : String)
    → any (named v) nodes ≡ false
    → get v (positions_from i m nodes) ≡ get v m
unfolding positions_from
positions_from_kept i m [] v h = refl
positions_from_kept i m (node ∷ nodes) v h =
    positions_from_kept (suc i) (put node.name i m) nodes v (ground arith)
    ∙ ground (arith, get-put node.name v i m)

-- The position of a name is that of the last node with the name.
positions_from-named :
    (i : ℕ) (m : Dict ℕ) (nodes : List NodeInfo) (v : String)
    → any (named v) nodes ≡ true
    → (d : ℕ) × (get v (positions_from i m nodes) ≡ some (i + d))
      × (holds (named v) (get_elem? nodes d) ≡ true)
      × (any (named v) (drop (suc d) nodes) ≡ false)
unfolding positions_from
positions_from-named i m [] v h = cc
positions_from-named i m (node ∷ nodes) v h = elim (Bool-cases (any (named v) nodes)) [
  | inl later ↦
      let r = positions_from-named (suc i) (put node.name i m) nodes v later in
      (suc r.0, r.1 ∙ ap some (omega arith), r.2, r.3)
  | inr here ↦ (
    0,
    positions_from_kept (suc i) (put node.name i m) nodes v here
        ∙ ground (arith, get-put node.name v i m),
    ground arith,
    here,
  )
]

set_identifiers-value :
    (m : Dict String) (node : NodeInfo) (k v : String)
    → get k (set_identifiers m node) ≡ some v
    → (v ≡ node.name) ⊎ (get k m ≡ some v)
unfolding set_identifiers
set_identifiers-value m node k v e = elim (Option-cases (given node.ip)) [
  | inl absent ↦ ground (
    arith,
    get-put node.name k node.name (put node.id node.name m),
    get-put node.id k node.name m,
  )
  | inr (ip, present) ↦ ground (
    arith,
    get-put ip k node.name (put node.name node.name (put node.id node.name m)),
    get-put node.name k node.name (put node.id node.name m),
    get-put node.id k node.name m,
  )
]

identifiers_from-value :
    (m : Dict String) (nodes : List NodeInfo) (k v : String)
    → get k (identifiers_from m nodes) ≡ some v
    → (any (named v) nodes ≡ true) ⊎ (get k m ≡ some v)
unfolding identifiers_from
identifiers_from-value m [] k v e = inr e
identifiers_from-value m (node ∷ nodes) k v e = ground (
  arith,
  identifiers_from-value (set_identifiers m node) nodes k v e,
  set_identifiers-value m node k v,
  eq_iff node.name v,
)

-- What a reference resolves to is the position of a node, the last one with its name.
pub name_of-position :
    (nodes : List NodeInfo) (ref : Option String) (v : String)
    → name_of (build_node_identifier_map nodes) ref ≡ some v
    → (d : ℕ) × (get v (nodes_by_name nodes) ≡ some d)
      × (holds (named v) (get_elem? nodes d) ≡ true)
      × (any (named v) (drop (suc d) nodes) ≡ false)
unfolding name_of build_node_identifier_map nodes_by_name get
name_of-position nodes none v e = cc
name_of-position nodes (some ref) v e =
    let r =
      positions_from-named 0 [] nodes v (ground (arith, identifiers_from-value [] nodes ref v)) in
    (r.0, r.1 ∙ ap some (omega arith), r.2, r.3)

-- The identifiers under which shards name a node.
abbrev pub identifiers : NodeInfo → List String
identifiers n = elim (given n.ip) [ none ↦ n.id ∷ n.name ∷ [] | some ip ↦ n.id ∷ n.name ∷ ip ∷ [] ]

-- No identifier stands for two nodes.
abbrev pub Separate : List NodeInfo → Type 0
Separate [] = Unit
Separate (n ∷ ns) =
    ((k : String)
      → includes (identifiers n) k ≡ true
      → All (λ m. includes (identifiers m) k ≡ false) ns)
    × Separate ns

set_identifiers-get :
    (m : Dict String) (n : NodeInfo) (k : String)
    → get k (set_identifiers m n) ≡ (if includes (identifiers n) k then some n.name else get k m)
unfolding set_identifiers
set_identifiers-get m n k = elim (Option-cases (given n.ip)) [
  | inl absent ↦
      ground (arith, get-put n.name k n.name (put n.id n.name m), get-put n.id k n.name m)
  | inr (ip, present) ↦ ground (
    arith,
    get-put ip k n.name (put n.name n.name (put n.id n.name m)),
    get-put n.name k n.name (put n.id n.name m),
    get-put n.id k n.name m,
  )
]

identifiers_from_kept :
    (m : Dict String) (nodes : List NodeInfo) (k : String)
    → All (λ n. includes (identifiers n) k ≡ false) nodes
    → get k (identifiers_from m nodes) ≡ get k m
unfolding identifiers_from
identifiers_from_kept m [] k h = refl
identifiers_from_kept m (n ∷ ns) k h =
    identifiers_from_kept (set_identifiers m n) ns k h.1 ∙ set_identifiers-get m n k ∙ rw h.0

identifiers_from-get :
    (m : Dict String) (nodes : List NodeInfo) (d : ℕ) (n : NodeInfo) (k : String)
    → Separate nodes
    → get_elem? nodes d ≡ some n
    → includes (identifiers n) k ≡ true
    → get k (identifiers_from m nodes) ≡ some n.name
unfolding identifiers_from
identifiers_from-get m [] d n k sep at own = cc
identifiers_from-get m (n' ∷ ns) zero n k sep at own =
    let same : n' ≡ n = ground arith in
    let own' : includes (identifiers n') k ≡ true = rw same own in
    identifiers_from_kept (set_identifiers m n') ns k (sep.0 k own')
    ∙ set_identifiers-get m n' k
    ∙ rw own' (ap (λ x. some x.name) same)
identifiers_from-get m (n' ∷ ns) (suc d) n k sep at own =
    identifiers_from-get (set_identifiers m n') ns d n k sep.1 at own

All-unnamed :
    (nodes : List NodeInfo) (k : String)
    → All (λ n. includes (identifiers n) k ≡ false) nodes
    → any (named k) nodes ≡ false
All-unnamed [] k h = refl
All-unnamed (n ∷ ns) k h = ground (arith, All-unnamed ns k h.1)

own_name : (n : NodeInfo) → includes (identifiers n) n.name ≡ true
own_name n = ground (arith, eq_iff n.name n.name)

positions_from-get :
    (i : ℕ) (m : Dict ℕ) (nodes : List NodeInfo) (d : ℕ) (n : NodeInfo)
    → Separate nodes
    → get_elem? nodes d ≡ some n
    → get n.name (positions_from i m nodes) ≡ some (i + d)
unfolding positions_from
positions_from-get i m [] d n sep at = cc
positions_from-get i m (n' ∷ ns) zero n sep at =
    let same : n' ≡ n = ground arith in
    rw (← same) (
      positions_from_kept (suc i) (put n'.name i m) ns n'.name
        (All-unnamed ns n'.name (sep.0 n'.name (own_name n')))
      ∙ ground (arith, get-put n'.name n'.name i m, eq_iff n'.name n'.name))
positions_from-get i m (n' ∷ ns) (suc d) n sep at =
    positions_from-get (suc i) (put n'.name i m) ns d n sep.1 at ∙ ap some (omega arith)

pub name_of-identifier :
    (nodes : List NodeInfo) (d : ℕ) (n : NodeInfo) (k : String)
    → Separate nodes
    → n.name ≢ ""
    → get_elem? nodes d ≡ some n
    → includes (identifiers n) k ≡ true
    → (name_of (build_node_identifier_map nodes) (some k) ≡ some n.name)
      × (get n.name (nodes_by_name nodes) ≡ some d)
unfolding name_of build_node_identifier_map nodes_by_name
name_of-identifier nodes d n k sep nonempty at own = (
  rw (identifiers_from-get [] nodes d n k sep at own) (ground (arith, eq_iff n.name "")),
  positions_from-get 0 [] nodes d n sep at ∙ ap some (omega arith),
)
