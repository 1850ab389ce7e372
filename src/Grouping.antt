-- ===== src/Grouping.antt =====
-- frontend/src/utils/topologyGrouping.ts: the groups of the topology view. A group is the array of a
-- key in a map; positions in tags count characters.
pub mod Tags
pub mod Groups
pub mod Coverage
use secan.Base.{
  ℕ, ◌-◌, String, Option, none, some, List, [], ◌∷◌, Bool, true, false, not, ◌&&◌, ◌===◌, ltb,
  if◌then◌else◌, includes, any, given, length, is_some, holds, split, join, index_of, text_take,
  text_drop, text_length, ◌+◌,
}
use secan.Base.Dict.{Dict, put, push}
use secan.Api.{NodeInfo}

pub data GroupingAttribute : Type 0 where
  by_none by_role by_type by_label : GroupingAttribute

pub record GroupingConfig : Type 0 where
  pub attribute : GroupingAttribute
  pub value : Option String

pub record Label : Type 0 where
  pub name : String
  pub value : String

abbrev whole_tag : String → Label
whole_tag tag = record { name = tag; value = tag }

-- `[name, ...valueParts]` of the parts.
abbrev colon_label : String → List String → Label
colon_label tag [] = whole_tag tag
colon_label tag (name ∷ value_parts) = record { name = name; value = join ":" value_parts }

pub extract_label_from_tag : String → Label
extract_label_from_tag tag =
    if is_some (index_of b':' tag)
    then colon_label tag (split b':' tag)
    else elim (index_of b'-' tag) [
      | none ↦ whole_tag tag
      | some dash ↦
          if ltb 0 dash && ltb dash (text_length tag - 1)
          then record { name = text_take dash tag; value = text_drop (dash + 1) tag }
          else whole_tag tag
    ]

abbrev pub has_tags : NodeInfo → Bool
has_tags node = holds (λ tags. ltb 0 (length tags)) node.tags

pub has_custom_labels : List NodeInfo → Bool
has_custom_labels nodes = any has_tags nodes

abbrev pub Groups : Type 0
Groups = Dict (List NodeInfo)

pub push_roles : NodeInfo → List String → Groups → Groups
push_roles node [] groups = groups
push_roles node (role ∷ roles) groups = push_roles node roles (push role node groups)

pub add_by_role : NodeInfo → Groups → Groups
add_by_role node groups =
    if ltb 0 (length node.roles)
    then push_roles node node.roles groups
    else push "undefined" node groups

pub add_by_type : NodeInfo → Groups → Groups
add_by_type node groups =
    if ltb 0 (length node.roles)
    then (let masters =
          if includes node.roles "master" then push "master" node groups else groups in
        if any (λ role. not (role === "master")) node.roles
        then push "other" node masters
        else masters)
    else push "undefined" node groups

pub add_by_tag : String → NodeInfo → Groups → Groups
add_by_tag tag node groups =
    let key =
      if holds (λ tags. includes tags tag) node.tags
      then (extract_label_from_tag tag).value
      else "other" in
    push key node groups

-- The group of a node's first tag.
abbrev pub first_label : Option (List String) → String
first_label none = "undefined"
first_label (some []) = "undefined"
first_label (some (tag ∷ tags)) = (extract_label_from_tag tag).value

pub add_by_first_label : NodeInfo → Groups → Groups
add_by_first_label node groups = push (first_label node.tags) node groups

-- `for (const node of nodes)`.
pub for_nodes : (NodeInfo → Groups → Groups) → List NodeInfo → Groups → Groups
for_nodes add [] groups = groups
for_nodes add (node ∷ nodes) groups = for_nodes add nodes (add node groups)

abbrev label_loop : Option String → NodeInfo → Groups → Groups
label_loop none = add_by_first_label
label_loop (some tag) = add_by_tag tag

pub calculate_node_groups : List NodeInfo → GroupingConfig → Groups
calculate_node_groups nodes config = elim config.attribute [
  | by_none ↦ put "all" nodes []
  | by_role ↦ for_nodes add_by_role nodes []
  | by_type ↦ for_nodes add_by_type nodes []
  | by_label ↦ for_nodes (label_loop (given config.value)) nodes []
]

abbrev undefined_label : GroupingAttribute → String
undefined_label by_none = "Undefined"
undefined_label by_role = "No Role"
undefined_label by_type = "Unknown Type"
undefined_label by_label = "No Label"

pub get_group_label : String → GroupingAttribute → String
get_group_label key attribute =
    if key === "undefined"
    then undefined_label attribute
    else if key === "all"
    then "All Nodes"
    else if key === "other"
    then "other"
    else key
