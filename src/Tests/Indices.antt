-- ===== src/Tests/Indices.antt =====
-- Runs of the bulk operations.
use secan.Base.{
  refl, true, ◌+◌, length, arith, ◌≡◌, String, none, some, List, [], ◌∷◌, not, includes, ◌&&◌,
  if◌then◌else◌,
}
use secan.Base.Dict.{get}
use secan.Api.{close}
use mathlib.Core.Option
use secan.Bulk.Confirm.{BulkState, handle_bulk_operation_confirm}
use secan.Bulk.Confirm.Names.{names_of, handle_bulk_operation_confirm-names}
use secan.Bulk.{validate_index_for_operation, validate_bulk_operation}
use secan.Bulk.Validation.{affects, reason, find_index, validate_bulk_operation-split}
use secan.Tests.Data.{indices}

abbrev chosen : List String
chosen = "old" ∷ "logs" ∷ "gone" ∷ []

validate_bulk_operation-split_example :
    ((validate_bulk_operation indices close chosen).valid_indices ≡ "logs" ∷ [])
    × ((validate_bulk_operation indices close chosen).ignored_indices ≡ "old" ∷ "gone" ∷ [])
    × ((j : String)
        → get j (validate_bulk_operation indices close chosen).ignore_reasons ≡ (
            if includes chosen j && not (affects indices close j)
            then some (reason (find_index indices j) close)
            else none))
unfolding get validate_index_for_operation
validate_bulk_operation-split_example = validate_bulk_operation-split indices close chosen

-- Closing a closed index, an open one and one that is not there.
abbrev closing : BulkState
closing = record {
  selected_indices = chosen;
  selected_operation = some close;
  bulk_modal_opened = true;
}

handle_bulk_operation_confirm-names_example :
    (Option.map names_of (handle_bulk_operation_confirm closing) ≡ some chosen)
    × (length (validate_bulk_operation indices close chosen).valid_indices
          + length (validate_bulk_operation indices close chosen).ignored_indices
        ≡ length chosen)
handle_bulk_operation_confirm-names_example =
    handle_bulk_operation_confirm-names indices close closing "old" ("logs" ∷ "gone" ∷ []) refl refl
      (omega arith) (omega arith)
