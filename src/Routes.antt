-- ===== src/Routes.antt =====
-- frontend/src/routes/clusterRoutes.ts, frontend/src/utils/urlBuilders.ts and the task ids of
-- frontend/src/types/tasks.ts: addresses and ids as texts. The regular expressions on a path are
-- its parts between slashes. `URLSearchParams` and `parseInt` are parameters.
pub mod RoundTrip
use secan.Base.{
  ℕ, String, Option, none, some, List, [], ◌∷◌, Bool, true, false, if◌then◌else◌, ◌===◌, ◌+++◌,
  includes, given, split, decimal,
}

abbrev pub available_sections : List String
available_sections =
    "overview" ∷ "topology" ∷ "statistics" ∷ "nodes" ∷ "indices" ∷ "shards" ∷ "tasks" ∷ "console"
    ∷ []

abbrev pub default_section : String
default_section = "overview"

unfoldable pub is_valid_cluster_section : String → Bool
is_valid_cluster_section value = includes available_sections value

-- A section that is valid, or the default.
abbrev pub valid_section : Option String → String
valid_section none = default_section
valid_section (some section) = if is_valid_cluster_section section then section else default_section

unfoldable pub build_cluster_section_url : String → Option String → String
build_cluster_section_url cluster_id section =
    "/cluster/" +++ (cluster_id +++ ("/" +++ valid_section (given section)))

-- The first part of a text up to a character, if it is not empty.
abbrev pub first_part : List String → Option String
first_part [] = none
first_part (p ∷ ps) = given (some p)

-- The parts of the path behind `/cluster/`.
unfoldable pub behind_cluster : List String → List String
behind_cluster [] = []
behind_cluster (root ∷ []) = []
behind_cluster (root ∷ (cluster ∷ rest)) =
    if root === "" then (if cluster === "cluster" then rest else []) else []

unfoldable pub extract_cluster_id_from_path : String → Option String
extract_cluster_id_from_path pathname = first_part (behind_cluster (split b'/' pathname))

-- The part behind the cluster's id, up to a slash or a question mark.
abbrev pub second_part : List String → Option String
second_part [] = none
second_part (p ∷ []) = none
second_part (p ∷ (q ∷ rest)) = elim (given (some p)) [
  | none ↦ none
  | some id ↦ first_part (split b'?' q)
]

abbrev pub if_valid : Option String → Option String
if_valid none = none
if_valid (some section) = if is_valid_cluster_section section then some section else none

pub record ClusterPath : Type 0 where
  pub cluster_id : Option String
  pub section : Option String

module _ (background : String → Option String) where
  -- `background` is the value of `bg` in a search text.
  unfoldable pub extract_section_from_path : String → Option String → Option String
  extract_section_from_path pathname search =
      let from_path = if_valid (second_part (behind_cluster (split b'/' pathname))) in
      elim (given search) [
        | none ↦ from_path
        | some text ↦ elim (if_valid (given (background text))) [
          | none ↦ from_path
          | some section ↦ some section
        ]
      ]

  unfoldable pub parse_cluster_path : String → ClusterPath
  parse_cluster_path pathname = elim (extract_cluster_id_from_path pathname) [
    | none ↦ record { cluster_id = none; section = none }
    | some id ↦ record { cluster_id = some id; section = extract_section_from_path pathname none }
  ]

pub record TaskId : Type 0 where
  pub node : String
  pub id : Option ℕ

unfoldable pub create_task_id : String → ℕ → String
create_task_id node id = node +++ (":" +++ decimal id)

-- `parse_int` is `parseInt` to base ten, where `none` is not a number.
module _ (parse_int : String → Option ℕ) where
  abbrev pub task_of : List String → TaskId
  task_of [] = record { node = ""; id = none }
  task_of (node ∷ []) = record { node = node; id = none }
  task_of (node ∷ (id_text ∷ rest)) = record { node = node; id = parse_int id_text }

  unfoldable pub parse_task_id : String → TaskId
  parse_task_id task_id = task_of (split b':' task_id)
