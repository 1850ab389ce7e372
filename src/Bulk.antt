-- ===== src/Bulk.antt =====
-- frontend/src/utils/bulk-operations.ts and frontend/src/hooks/useBulkSelection.ts: which of the
-- selected indices a bulk operation affects, and the selection itself.
pub mod Validation
pub mod Selection
pub mod Confirm
use secan.Base.{
  ℕ, ◌+◌, ◌==◌, ltb, String, Option, none, some, List, [], ◌∷◌, ◌++◌, Bool, true, false,
  if◌then◌else◌, ◌===◌, ◌+++◌, includes, length, decimal,
}
use secan.Base.Dict.{Dict, get, put}
use secan.Base.Keys.{add, delete, from_array}
use secan.Api.{
  IndexInfo, BulkOperationType, open_index, close, delete as delete_index, refresh, set_read_only,
  set_writable, BulkOperationValidationResult,
}

abbrev pub get_bulk_operation_display_name : BulkOperationType → String
get_bulk_operation_display_name open_index = "Open"
get_bulk_operation_display_name close = "Close"
get_bulk_operation_display_name delete_index = "Delete"
get_bulk_operation_display_name refresh = "Refresh"
get_bulk_operation_display_name set_read_only = "Set Read-Only"
get_bulk_operation_display_name set_writable = "Set Writable"

unfoldable pub validate_index_for_operation : IndexInfo → BulkOperationType → Bool
validate_index_for_operation index open_index = index.status === "close"
validate_index_for_operation index close = index.status === "open"
validate_index_for_operation index delete_index = true
validate_index_for_operation index refresh = index.status === "open"
validate_index_for_operation index set_read_only = index.status === "open"
validate_index_for_operation index set_writable = false

pub get_ignore_reason : IndexInfo → BulkOperationType → String
get_ignore_reason index open_index =
    if index.status === "open" then "Already open" else "Index not found"
get_ignore_reason index close =
    if index.status === "close" then "Already closed" else "Index not found"
get_ignore_reason index delete_index = "Index not found"
get_ignore_reason index refresh =
    if index.status === "close" then "Cannot refresh closed index" else "Index not found"
get_ignore_reason index set_read_only =
    if index.status === "close"
    then "Cannot modify settings on closed index"
    else "Already read-only"
get_ignore_reason index set_writable =
    if index.status === "close"
    then "Cannot modify settings on closed index"
    else "Already writable"

-- The map from names to indices; of two indices with one name the later is kept.
pub index_map_from : Dict IndexInfo → List IndexInfo → Dict IndexInfo
index_map_from m [] = m
index_map_from m (index ∷ indices) = index_map_from (put index.name index m) indices

abbrev pub index_map : List IndexInfo → Dict IndexInfo
index_map indices = index_map_from [] indices

-- A name that is ignored, with its reason.
abbrev ignore : String → String → BulkOperationValidationResult → BulkOperationValidationResult
ignore name reason r = record r {
  ignored_indices = r.ignored_indices ++ name ∷ [];
  ignore_reasons = put name reason r.ignore_reasons;
}

-- One round of the loop over the selected names.
pub validate_name :
    Dict IndexInfo
    → BulkOperationType
    → BulkOperationValidationResult
    → String
    → BulkOperationValidationResult
validate_name m operation r name = elim (get name m) [
  | none ↦ ignore name "Index not found" r
  | some index ↦
      if validate_index_for_operation index operation
      then record r { valid_indices = r.valid_indices ++ name ∷ [] }
      else ignore name (get_ignore_reason index operation) r
]

pub validate_names :
    Dict IndexInfo
    → BulkOperationType
    → BulkOperationValidationResult
    → List String
    → BulkOperationValidationResult
validate_names m operation r [] = r
validate_names m operation r (name ∷ names) =
    validate_names m operation (validate_name m operation r name) names

-- The selected names are those of a set, in its order.
pub validate_bulk_operation :
    List IndexInfo → BulkOperationType → List String → BulkOperationValidationResult
validate_bulk_operation indices operation selected =
    validate_names (index_map indices) operation
      (record { valid_indices = []; ignored_indices = []; ignore_reasons = [] }) selected

pub has_valid_indices : BulkOperationValidationResult → Bool
has_valid_indices r = ltb 0 (length r.valid_indices)

pub get_validation_summary : BulkOperationValidationResult → String
get_validation_summary r =
    let total = length r.valid_indices + length r.ignored_indices in
    if length r.ignored_indices == 0
    then "All " +++ decimal total +++ " selected indices will be affected"
    else decimal (length r.valid_indices)
      +++ " will be affected, "
      +++ decimal (length r.ignored_indices)
      +++ " will be ignored"

-- The hook's state is the set of the selected names.
pub is_selected : String → List String → Bool
is_selected name selected = includes selected name

pub toggle_selection : String → List String → List String
toggle_selection name selected =
    if includes selected name then delete name selected else add name selected

pub select_all : List String → List String
select_all indices = from_array [] indices

pub clear_selection : List String
clear_selection = []

pub data SelectionAction : Type 0 where
  toggle : String → SelectionAction
  all : List String → SelectionAction
  clear : SelectionAction

pub select : SelectionAction → List String → List String
select (toggle name) selected = toggle_selection name selected
select (all indices) selected = select_all indices
select clear selected = clear_selection
