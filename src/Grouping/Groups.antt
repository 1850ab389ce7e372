-- ===== src/Grouping/Groups.antt =====
-- Which nodes a group holds.
use mathlib.Core.List.{append-nil, append_assoc}
use secan.Base.{
  ◌≡◌, refl, sym, ap, ◌∙◌, String, Option, none, some, List, [], ◌∷◌, ◌++◌, Bool, true, false, not,
  if◌then◌else◌, ◌===◌, includes, any, holds, given, length, ltb, arith, flat_map, or_else,
}
use secan.Base.Dict.{get, put, get-put, group, push, group-push}
use secan.Api.{NodeInfo}
use secan.Grouping.{
  GroupingAttribute, by_none, by_role, by_type, by_label, GroupingConfig, Groups,
  extract_label_from_tag, push_roles, add_by_role, add_by_type, add_by_tag, first_label,
  add_by_first_label, for_nodes, label_loop, calculate_node_groups,
}

-- The groups of a node, in the order in which it is added to them.
abbrev pub role_groups : List String → List String
role_groups [] = "undefined" ∷ []
role_groups (role ∷ roles) = role ∷ roles

abbrev pub type_groups : List String → List String
type_groups [] = "undefined" ∷ []
type_groups (role ∷ roles) =
    (if includes (role ∷ roles) "master" then "master" ∷ [] else [])
    ++ (if any (λ r. not (r === "master")) (role ∷ roles) then "other" ∷ [] else [])

abbrev pub label_group : Option String → NodeInfo → String
label_group none node = first_label node.tags
label_group (some tag) node =
    if holds (λ tags. includes tags tag) node.tags
    then (extract_label_from_tag tag).value
    else "other"

abbrev pub groups_of : GroupingConfig → NodeInfo → List String
groups_of config node = elim config.attribute [
  | by_none ↦ "all" ∷ []
  | by_role ↦ role_groups node.roles
  | by_type ↦ type_groups node.roles
  | by_label ↦ label_group (given config.value) node ∷ []
]

-- A node as often as a key stands in its groups.
abbrev pub copies : String → NodeInfo → List String → List NodeInfo
copies k node [] = []
copies k node (j ∷ js) = if j === k then node ∷ copies k node js else copies k node js

-- Adding a node to groups.
abbrev AddsTo : (NodeInfo → Groups → Groups) → (NodeInfo → List String) → Type 0
AddsTo add keys =
    (k : String) (node : NodeInfo) (m : Groups)
    → group k (add node m) ≡ group k m ++ copies k node (keys node)

push_roles-group :
    (k : String) (node : NodeInfo) (roles : List String) (m : Groups)
    → group k (push_roles node roles m) ≡ group k m ++ copies k node roles
unfolding push_roles
push_roles-group k node [] m = sym (append-nil _)
push_roles-group k node (role ∷ roles) m =
    push_roles-group k node roles (push role node m)
    ∙ ground (
      arith,
      group-push role k node m,
      append_assoc (group k m) (node ∷ []) (copies k node roles),
    )

push-group :
    (j k : String) (node : NodeInfo) (m : Groups)
    → group k (push j node m) ≡ group k m ++ copies k node (j ∷ [])
push-group j k node m = ground (arith, group-push j k node m, append-nil (group k m))

full : (x : String) (xs : List String) → ltb 0 (length (x ∷ xs)) ≡ true
full x xs = ground arith

role-branch :
    (k : String) (node : NodeInfo) (m : Groups) (roles : List String)
    → group k (if ltb 0 (length roles) then push_roles node roles m else push "undefined" node m)
      ≡ group k m ++ copies k node (role_groups roles)
role-branch k node m [] = push-group "undefined" k node m
role-branch k node m (r ∷ rs) = rw (full r rs) (push_roles-group k node (r ∷ rs) m)

role-AddsTo : AddsTo add_by_role (λ node. role_groups node.roles)
unfolding add_by_role
role-AddsTo k node m = role-branch k node m node.roles

push_if-group :
    (b : Bool) (j k : String) (node : NodeInfo) (m : Groups)
    → group k (if b then push j node m else m)
      ≡ group k m ++ copies k node (if b then j ∷ [] else [])
push_if-group true j k node m = push-group j k node m
push_if-group false j k node m = sym (append-nil _)

copies-append :
    (k : String) (node : NodeInfo) (xs ys : List String)
    → copies k node (xs ++ ys) ≡ copies k node xs ++ copies k node ys
copies-append k node [] ys = refl
copies-append k node (x ∷ xs) ys = ground (arith, copies-append k node xs ys)

type-branch :
    (k : String) (node : NodeInfo) (m : Groups) (roles : List String)
    → group k (
        if ltb 0 (length roles)
        then (let masters = if includes roles "master" then push "master" node m else m in
            if any (λ role. not (role === "master")) roles
            then push "other" node masters
            else masters)
        else push "undefined" node m)
      ≡ group k m ++ copies k node (type_groups roles)
type-branch k node m [] = push-group "undefined" k node m
type-branch k node m (r ∷ rs) =
    let masters = if includes (r ∷ rs) "master" then push "master" node m else m in
    rw (full r rs) (
      push_if-group (any (λ role. not (role === "master")) (r ∷ rs)) "other" k node masters
      ∙ ap
          (λ g.
            g
            ++ copies k node
                (if any (λ role. not (role === "master")) (r ∷ rs) then "other" ∷ [] else []))
          (push_if-group (includes (r ∷ rs) "master") "master" k node m)
      ∙ append_assoc (group k m) _ _
      ∙ ap (λ g. group k m ++ g)
          (sym (copies-append k node (if includes (r ∷ rs) "master" then "master" ∷ [] else []) _)))

type-AddsTo : AddsTo add_by_type (λ node. type_groups node.roles)
unfolding add_by_type
type-AddsTo k node m = type-branch k node m node.roles

label-AddsTo :
    (value : Option String) → AddsTo (label_loop value) (λ node. label_group value node ∷ [])
unfolding add_by_first_label add_by_tag
label-AddsTo none k node m = push-group (first_label node.tags) k node m
label-AddsTo (some tag) k node m =
    push-group
      (if holds (λ tags. includes tags tag) node.tags
        then (extract_label_from_tag tag).value
        else "other")
      k node m

for_nodes-group :
    (add : NodeInfo → Groups → Groups) (keys : NodeInfo → List String)
    → AddsTo add keys
    → (k : String) (nodes : List NodeInfo) (m : Groups)
    → group k (for_nodes add nodes m) ≡ group k m ++ flat_map (λ n. copies k n (keys n)) nodes
unfolding for_nodes
for_nodes-group add keys h k [] m = sym (append-nil _)
for_nodes-group add keys h k (n ∷ ns) m =
    for_nodes-group add keys h k ns (add n m)
    ∙ ap (λ g. g ++ flat_map (λ n. copies k n (keys n)) ns) (h k n m)
    ∙ append_assoc (group k m) _ _

all_or_none :
    (b : Bool) (nodes : List NodeInfo)
    → or_else (if b then some nodes else none) [] ≡ flat_map (λ n. if b then n ∷ [] else []) nodes
all_or_none true [] = refl
all_or_none true (n ∷ ns) = ap (◌∷◌ n) (all_or_none true ns)
all_or_none false [] = refl
all_or_none false (n ∷ ns) = all_or_none false ns

all-group :
    (k : String) (nodes : List NodeInfo)
    → group k (put "all" nodes []) ≡ flat_map (λ n. copies k n ("all" ∷ [])) nodes
unfolding get
all-group k nodes =
    ap (λ o. or_else o []) (get-put "all" k nodes []) ∙ all_or_none ("all" === k) nodes

-- For every way of grouping, the group of a key holds the nodes that belong to it in the order of
-- the input: by role a node belongs to each of its roles, by type to masters and to others as its
-- roles say, by label to the group of its tag, and without grouping to the group of all.
pub calculate_node_groups-group :
    (nodes : List NodeInfo) (config : GroupingConfig) (k : String)
    → group k (calculate_node_groups nodes config)
      ≡ flat_map (λ n. copies k n (groups_of config n)) nodes
unfolding calculate_node_groups get
calculate_node_groups-group nodes config k = by_attribute config.attribute
  where
    by_attribute :
        (a : GroupingAttribute)
        → group k (elim a [
          | by_none ↦ put "all" nodes []
          | by_role ↦ for_nodes add_by_role nodes []
          | by_type ↦ for_nodes add_by_type nodes []
          | by_label ↦ for_nodes (label_loop (given config.value)) nodes []
        ])
          ≡ flat_map
              (λ n. copies k n (elim a [
                | by_none ↦ "all" ∷ []
                | by_role ↦ role_groups n.roles
                | by_type ↦ type_groups n.roles
                | by_label ↦ label_group (given config.value) n ∷ []
              ]))
              nodes
    by_attribute by_none = all-group k nodes
    by_attribute by_role =
        for_nodes-group add_by_role (λ n. role_groups n.roles) role-AddsTo k nodes []
    by_attribute by_type =
        for_nodes-group add_by_type (λ n. type_groups n.roles) type-AddsTo k nodes []
    by_attribute by_label =
        for_nodes-group (label_loop (given config.value))
          (λ n. label_group (given config.value) n ∷ []) (label-AddsTo (given config.value)) k nodes
          []
