-- ===== src/Bulk/Confirm/Names.antt =====
-- frontend/src/pages/ClusterView.tsx: which names a confirmed bulk operation sends, against which of
-- them the operation was validated for.
use Prim.Native.Char.{Char}
use Prim.Native.String.{◌∷◌ as ◌::◌}
use mathlib.Core.Option
use mathlib.Core.List.{[], ◌∷◌}
use secan.Base.{◌+◌, ◌≡◌, ap, ◌∙◌, String, some, List, All, split, join, length, ◌+++◌, arith}
use secan.Base.Decimal.{Without}
use secan.Base.Split.{split-append, split-Without}
use secan.Base.Join.{split-join, join-Without}
use secan.Api.{
  IndexInfo, BulkOperationType, open_index, close, delete as delete_index, refresh, set_read_only,
  set_writable,
}
use secan.Bulk.{validate_bulk_operation}
use secan.Bulk.Validation.{has_valid_indices-any}
use secan.Bulk.Confirm.{BulkState, mutation_of, handle_bulk_operation_confirm}
use secan.Client.Requests.{Request}
use secan.Client.Commands.{
  bulk_open_indices, bulk_close_indices, bulk_delete_indices, bulk_refresh_indices,
  bulk_set_index_read_only, bulk_set_index_writable,
}

-- The names in the first part of a path.
abbrev pub first_part : List String → String
first_part [] = ""
first_part (p ∷ ps) = p

abbrev pub names_of : Request → List String
names_of r = split b',' (first_part (split b'/' r.path))

abbrev slash : Char
slash = "/"

abbrev comma : Char
comma = ","

module _ (x : String) (xs : List String) (commas : All (Without b',') (x ∷ xs))
    (slashes : All (Without b'/') (x ∷ xs)) where
  abbrev all : String
  all = join "," (x ∷ xs)

  names-command :
      (t : String) → split b',' (first_part (split b'/' (all +++ (slash :: t)))) ≡ x ∷ xs
  names-command t =
      ap (λ l. split b',' (first_part l))
        (split-append slash all t (join-Without b'/' "," (x ∷ xs) (omega arith) slashes))
      ∙ split-join comma x xs commas

  names-alone : split b',' (first_part (split b'/' all)) ≡ x ∷ xs
  names-alone =
      ap (λ l. split b',' (first_part l))
        (split-Without b'/' all (join-Without b'/' "," (x ∷ xs) (omega arith) slashes))
      ∙ split-join comma x xs commas

  mutation_of-names :
      (operation : BulkOperationType)
      → Option.map names_of (mutation_of operation (x ∷ xs)) ≡ some (x ∷ xs)
  unfolding mutation_of bulk_open_indices bulk_close_indices bulk_delete_indices
      bulk_refresh_indices bulk_set_index_read_only bulk_set_index_writable
  mutation_of-names open_index = ap some (names-command "_open")
  mutation_of-names close = ap some (names-command "_close")
  mutation_of-names delete_index = ap some names-alone
  mutation_of-names refresh = ap some (names-command "_refresh")
  mutation_of-names set_read_only = ap some (names-command "_settings")
  mutation_of-names set_writable = ap some (names-command "_settings")

-- A confirmation of any operation sends one request, and the names in its path are all the selected
-- ones in their order, if at least one is selected and none has a comma or a slash: also those that
-- validation ignored, which with the valid ones make up the number of the selected.
pub handle_bulk_operation_confirm-names :
    (indices : List IndexInfo) (operation : BulkOperationType) (s : BulkState) (x : String)
    (xs : List String)
    → s.selected_operation ≡ some operation
    → s.selected_indices ≡ x ∷ xs
    → All (Without b',') (x ∷ xs)
    → All (Without b'/') (x ∷ xs)
    → let r = validate_bulk_operation indices operation s.selected_indices in
      (Option.map names_of (handle_bulk_operation_confirm s) ≡ some s.selected_indices)
      × (length r.valid_indices + length r.ignored_indices ≡ length s.selected_indices)
unfolding handle_bulk_operation_confirm
handle_bulk_operation_confirm-names indices operation s x xs chosen named commas slashes = (
  rw (chosen, named) (mutation_of-names x xs commas slashes operation),
  (has_valid_indices-any indices operation s.selected_indices).1,
)
