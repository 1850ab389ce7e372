-- ===== src/Bulk/Confirm.antt =====
-- frontend/src/pages/ClusterView.tsx, the bulk operations of the index list, with
-- frontend/src/components/BulkOperationsMenu.tsx and BulkOperationConfirmModal.tsx: which operations
-- are offered, what a confirmation sends, and what becomes of the selection.
pub mod Names
use Prim.Native.String.{[], ◌∷◌}
use mathlib.Core.List.{[], ◌∷◌}
use secan.Base.{
  ℕ, String, Option, none, some, List, Bool, true, false, not, if◌then◌else◌, includes, any, map,
  length, ◌==◌, ◌+++◌, decimal,
}
use secan.Base.Keys.{from_array}
use secan.Api.{
  IndexInfo, BulkOperationType, open_index, close, delete as delete_index, refresh, set_read_only,
  set_writable, BulkOperationValidationResult,
}
use secan.Bulk.{validate_bulk_operation, has_valid_indices, get_bulk_operation_display_name}
use secan.Client.Requests.{Request}
use secan.Client.Commands.{
  bulk_open_indices, bulk_close_indices, bulk_delete_indices, bulk_refresh_indices,
  bulk_set_index_read_only, bulk_set_index_writable,
}

-- An entry of the menu.
pub record AvailableOperation : Type 0 where
  pub operation : BulkOperationType
  pub label : String
  pub disabled : Bool
  pub valid_count : ℕ

unfoldable pub check_operation :
    List IndexInfo → List String → BulkOperationType → AvailableOperation
check_operation indices selected operation =
    let validation = validate_bulk_operation indices operation selected in
    record {
      operation = operation;
      label = get_bulk_operation_display_name operation;
      disabled = not (has_valid_indices validation);
      valid_count = length validation.valid_indices;
    }

unfoldable pub available_operations : List IndexInfo → List String → List AvailableOperation
unfolding check_operation
available_operations indices selected =
    map (check_operation indices selected)
      (open_index ∷ (close ∷ (delete_index ∷ (refresh ∷ (set_read_only ∷ (set_writable ∷ []))))))

pub record BulkState : Type 0 where
  pub selected_indices : List String
  pub selected_operation : Option BulkOperationType
  pub bulk_modal_opened : Bool

unfoldable pub handle_bulk_operation_select : BulkOperationType → BulkState → BulkState
handle_bulk_operation_select operation s = record s {
  selected_operation = some operation;
  bulk_modal_opened = true;
}

-- The mutation of an operation: the request that it sends for the selected names.
unfoldable pub mutation_of : BulkOperationType → List String → Option Request
mutation_of open_index names = bulk_open_indices names
mutation_of close names = bulk_close_indices names
mutation_of delete_index names = bulk_delete_indices names
mutation_of refresh names = bulk_refresh_indices names
mutation_of set_read_only names = bulk_set_index_read_only names
mutation_of set_writable names = bulk_set_index_writable names

unfoldable pub handle_bulk_operation_confirm : BulkState → Option Request
unfolding mutation_of
handle_bulk_operation_confirm s = elim s.selected_operation [
  | none ↦ none
  | some operation ↦ mutation_of operation s.selected_indices
]

-- `onSuccess` of a mutation; an error changes nothing here.
unfoldable pub bulk_succeeds : BulkState → BulkState
bulk_succeeds s = record s { bulk_modal_opened = false; selected_indices = [] }

-- The box above the list: everything is selected, or nothing where everything is.
unfoldable pub handle_bulk_select_all : List IndexInfo → BulkState → BulkState
handle_bulk_select_all sorted s =
    if any (λ (i : IndexInfo). not (includes s.selected_indices i.name)) sorted
    then record s { selected_indices = from_array [] (map (λ (i : IndexInfo). i.name) sorted) }
    else record s { selected_indices = [] }
