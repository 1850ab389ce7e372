-- ===== src/Grouping/Coverage.antt =====
-- No way of grouping loses a node.
use secan.Base.{
  ℕ, zero, suc, ◌≡◌, refl, ap, ◌∙◌, String, some, List, [], ◌∷◌, ◌++◌, true, not, if◌then◌else◌,
  ◌===◌, includes, any, given, arith, flat_map, get_elem?, Bool-cases, inl, inr, eq_iff,
}
use secan.Base.Dict.{group}
use secan.Api.{NodeInfo}
use secan.Grouping.{
  GroupingAttribute, by_none, by_role, by_type, by_label, GroupingConfig, calculate_node_groups,
}
use secan.Grouping.Groups.{
  role_groups, type_groups, label_group, groups_of, copies, calculate_node_groups-group,
}

abbrev First : List String → Type 0
First xs = (k : String) × (rest : List String) × (xs ≡ k ∷ rest)

role_groups-First : (roles : List String) → First (role_groups roles)
role_groups-First [] = ("undefined", [], refl)
role_groups-First (r ∷ rs) = (r, rs, refl)

type_groups-First : (roles : List String) → First (type_groups roles)
type_groups-First [] = ("undefined", [], refl)
type_groups-First (r ∷ rs) = elim (Bool-cases (includes (r ∷ rs) "master")) [
  | inl has ↦
      ("master", if any (λ x. not (x === "master")) (r ∷ rs) then "other" ∷ [] else [], rw has)
  | inr lacks ↦
      let other : any (λ x. not (x === "master")) (r ∷ rs) ≡ true = ground arith in
      ("other", [], rw (lacks, other))
]

groups_of-First : (config : GroupingConfig) (n : NodeInfo) → First (groups_of config n)
groups_of-First config n = by_attribute config.attribute
  where
    by_attribute :
        (a : GroupingAttribute)
        → First (elim a [
          | by_none ↦ "all" ∷ []
          | by_role ↦ role_groups n.roles
          | by_type ↦ type_groups n.roles
          | by_label ↦ label_group (given config.value) n ∷ []
        ])
    by_attribute by_none = ("all", [], refl)
    by_attribute by_role = role_groups-First n.roles
    by_attribute by_type = type_groups-First n.roles
    by_attribute by_label = (label_group (given config.value) n, [], refl)

-- Where an element of a list stands in an appended list.
abbrev Stands : NodeInfo → List NodeInfo → Type 0
Stands n xs = (j : ℕ) × (get_elem? xs j ≡ some n)

Stands-right : (n : NodeInfo) (xs ys : List NodeInfo) → Stands n ys → Stands n (xs ++ ys)
Stands-right n [] ys s = s
Stands-right n (x ∷ xs) ys s = let (j, e) = Stands-right n xs ys s in (suc j, e)

Stands-flat_map :
    (f : NodeInfo → List NodeInfo) (n : NodeInfo) (rest : List NodeInfo) (nodes : List NodeInfo)
    (i : ℕ)
    → get_elem? nodes i ≡ some n
    → f n ≡ n ∷ rest
    → Stands n (flat_map f nodes)
Stands-flat_map f n rest [] i at e = cc
Stands-flat_map f n rest (x ∷ xs) zero at e =
    let same : x ≡ n = ground arith in
    (0, ap (λ y. get_elem? (f y ++ flat_map f xs) 0) same ∙ rw e refl)
Stands-flat_map f n rest (x ∷ xs) (suc i) at e =
    Stands-right n (f x) (flat_map f xs) (Stands-flat_map f n rest xs i at e)

-- Every node of the input stands in some group, whatever the way of grouping, also a node with no
-- roles or tags.
pub calculate_node_groups-covers :
    (nodes : List NodeInfo) (config : GroupingConfig) (n : NodeInfo) (i : ℕ)
    → get_elem? nodes i ≡ some n
    → (k : String) × (j : ℕ) × (get_elem? (group k (calculate_node_groups nodes config)) j ≡ some n)
calculate_node_groups-covers nodes config n i at =
    let (k, rest, e) = groups_of-First config n in
    let (j, stands) =
      Stands-flat_map (λ m. copies k m (groups_of config m)) n (copies k n rest) nodes i at
        (ap (copies k n) e ∙ ground (arith, eq_iff k k)) in
    (k, j, ap (λ g. get_elem? g j) (calculate_node_groups-group nodes config k) ∙ stands)
