-- ===== src/Tests/Views.antt =====
-- Runs of the modals, of the console's history and of the orders.
use secan.Base.{ℕ, ◌≡◌, refl, String, none, some, List, [], ◌∷◌, false, Ordering}
use secan.Api.{ShardInfo}
use secan.Modals.{ModalType, ModalData, ModalStackItem, ModalAction, push, run, empty}
use secan.Modals.Laws.{IsValid, run-empty-IsValid}
use secan.History.{Request, history_item}
use secan.History.Laws.{history_after, history_after-recent}
use secan.ShardOrder.{Collation}
use secan.Tests.Data.{shard_of}

abbrev index_modal : String → ModalData
index_modal name = record {
  type = ModalType.index;
  index_name = some name;
  shard_id = none;
  node_id = none;
  tab = none;
  shard_primary = none;
  shard_node = none;
}

-- The second push shows what the first shows.
abbrev opened : List ModalAction
opened = push (index_modal "logs") 5 ∷ push (index_modal "logs") 6 ∷ push (index_modal "old") 6 ∷ []

run-empty-IsValid_example : IsValid (run opened empty)
run-empty-IsValid_example = run-empty-IsValid opened

abbrev first_item : ModalStackItem
first_item = record { modal = index_modal "logs"; id = "modal-5-1" }

abbrev get_request : String → Request
get_request path = record { method = "GET"; path = path; body = none; response = none }

abbrev sent : List (Request × ℕ)
sent = (get_request "/_cat", 30) ∷ (get_request "/logs", 20) ∷ (get_request "/_cat", 10) ∷ []

history_after-recent_example :
    history_after sent
    ≡ history_item (get_request "/_cat") 30 ∷ history_item (get_request "/logs") 20 ∷ []
history_after-recent_example = history_after-recent sent

-- A locale that tells no strings apart.
abbrev pub flat : Collation
flat = record {
  locale_compare = λ a b. Ordering.eq;
  consistent = record { flips = λ x y. refl; trans = λ x y z h k. refl };
}

abbrev other_replica : ShardInfo
other_replica = shard_of "logs" 1 false "STARTED" (some "a1") none
