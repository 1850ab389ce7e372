-- ===== src/Modals.antt =====
-- frontend/src/hooks/useModalStack.ts: the stack of open modals. The counter of the module and the
-- time make the ids, so both are arguments; `console.debug` is left out.
pub mod Laws
pub mod Order
use secan.Base.{
  ℕ, suc, ◌-◌, String, Option, none, some, List, [], ◌∷◌, ◌++◌, Bool, true, false, ◌&&◌, ◌===◌,
  ◌+++◌, ltb, if◌then◌else◌, any, find_index, last?, init, length, decimal,
}

pub data ModalType : Type 0 where
  index shard node index_create : ModalType

pub record ModalData : Type 0 where
  pub type : ModalType
  pub index_name : Option String
  pub shard_id : Option String
  pub node_id : Option String
  pub tab : Option String
  pub shard_primary : Option Bool
  pub shard_node : Option String

pub record ModalStackItem : Type 0 where
  pub modal : ModalData
  pub open modal use *
  pub id : String

unfoldable pub generate_modal_id : ℕ → ℕ → String
generate_modal_id now counter = "modal-" +++ decimal now +++ "-" +++ decimal counter

-- `===` of two optional strings.
abbrev pub same : Option String → Option String → Bool
same none none = true
same none (some b) = false
same (some a) none = false
same (some a) (some b) = a === b

abbrev pub same_type : ModalType → ModalType → Bool
same_type index index = true
same_type shard shard = true
same_type node node = true
same_type index_create index_create = true
same_type _ _ = false

-- The test of `exists`: whether an open modal shows what the new one would show.
unfoldable pub shows : ModalType → ModalData → ModalData → Bool
shows index modal m = same_type m.type index && same m.index_name modal.index_name
shows shard modal m =
    same_type m.type shard && same m.shard_id modal.shard_id && same m.index_name modal.index_name
shows node modal m = same_type m.type node && same m.node_id modal.node_id
shows index_create modal m = false

pub top_modal : List ModalStackItem → Option ModalStackItem
top_modal stack = last? stack

-- The stack and the counter of the ids that are used up.
pub record ModalState : Type 0 where
  pub stack : List ModalStackItem
  pub counter : ℕ

unfoldable pub push_modal : ModalData → ℕ → ModalState → ModalState
push_modal modal now s =
    let id = generate_modal_id now (suc s.counter) in
    if any (λ (m : ModalStackItem). shows modal.type modal m.modal) s.stack
    then record s { counter = suc s.counter }
    else record {
      stack = s.stack ++ (record { modal = modal; id = id }) ∷ [];
      counter = suc s.counter;
    }

unfoldable pub pop_modal : ModalState → ModalState
pop_modal s = record s { stack = init s.stack }

pub clear_modals : ModalState → ModalState
clear_modals s = record s { stack = [] }

pub has_modal_above : String → List ModalStackItem → Bool
has_modal_above id stack = elim (find_index (λ (m : ModalStackItem). m.id === id) stack) [
  | none ↦ false
  | some i ↦ ltb i (length stack - 1)
]

pub data ModalAction : Type 0 where
  push : ModalData → ℕ → ModalAction
  pop clear : ModalAction

unfoldable pub perform : ModalAction → ModalState → ModalState
perform (push modal now) s = push_modal modal now s
perform pop s = pop_modal s
perform clear s = clear_modals s

abbrev pub empty : ModalState
empty = record { stack = []; counter = 0 }

unfoldable pub run : List ModalAction → ModalState → ModalState
run [] s = s
run (a ∷ rest) s = run rest (perform a s)
