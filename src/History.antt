-- ===== src/History.antt =====
-- frontend/src/hooks/useConsoleHistory.ts: the history of the REST console. The state is the list
-- that the preferences hold under `restConsoleHistory`, newest first; the time is an argument.
pub mod Laws
use secan.Base.{
  ℕ, zero, suc, String, Option, none, some, List, [], ◌∷◌, ◌++◌, Bool, true, false, ◌&&◌,
  if◌then◌else◌, ◌===◌, take, drop, get_elem?, find_index,
}

pub record RequestHistoryItem : Type 0 where
  pub timestamp : ℕ
  pub method : String
  pub path : String
  pub body : Option String
  pub response : Option String

-- A request without its time.
pub record Request : Type 0 where
  pub method : String
  pub path : String
  pub body : Option String
  pub response : Option String

abbrev pub max_history_entries : ℕ
max_history_entries = 100

abbrev pub same_body : Option String → Option String → Bool
same_body none none = true
same_body none (some b) = false
same_body (some a) none = false
same_body (some a) (some b) = a === b

abbrev pub matches_request : Request → RequestHistoryItem → Bool
matches_request request item =
    item.method === request.method && item.path === request.path && same_body item.body request.body

abbrev pub history_item : Request → ℕ → RequestHistoryItem
history_item request now = record {
  timestamp = now;
  method = request.method;
  path = request.path;
  body = request.body;
  response = request.response;
}

-- `newHistory[i] = item`, then `splice(i, 1)` and `unshift` of what it took out.
pub replace_at : ℕ → RequestHistoryItem → List RequestHistoryItem → List RequestHistoryItem
replace_at i item [] = []
replace_at zero item (x ∷ xs) = item ∷ xs
replace_at (suc i) item (x ∷ xs) = x ∷ replace_at i item xs

pub move_to_front : ℕ → List RequestHistoryItem → List RequestHistoryItem
move_to_front i xs = elim (get_elem? xs i) [
  | none ↦ xs
  | some updated ↦ updated ∷ (take i xs ++ drop (suc i) xs)
]

pub add_entry : Request → ℕ → List RequestHistoryItem → List RequestHistoryItem
add_entry request now history =
    let item = history_item request now in
    take max_history_entries (elim (find_index (matches_request request) history) [
      | none ↦ item ∷ history
      | some i ↦ move_to_front i (replace_at i item history)
    ])

abbrev pub clear_history : List RequestHistoryItem
clear_history = []

abbrev pub get_entry : ℕ → List RequestHistoryItem → Option RequestHistoryItem
get_entry index history = get_elem? history index
