-- ===== src/NodeShards.antt =====
-- frontend/src/hooks/usePerNodeShards.ts: the loading of shards node by node. An abort controller is
-- its number, which is also that of the loader that starts with it. Loaders that an effect has left behind
-- go on beside the new one, and each step of one is an event. The answers of the server are parameters.
pub mod Numbering
pub mod Loading
pub mod Steps
pub mod Rounds
pub mod Progress
pub mod Staleness
use secan.Base.{
  ℕ, suc, String, Option, none, some, List, [], ◌∷◌, Bool, true, false, not, ◌||◌, ◌&&◌, ◌===◌,
  if◌then◌else◌, holds, ◌==◌, any, keep, includes, take, drop, flat_map, is_some,
}
use secan.Base.Dict.{Dict, put, get}
use secan.Base.Keys.{add}
use secan.Api.{ShardInfo}

pub record NodeLoad : Type 0 where
  pub shards : List ShardInfo
  pub loading : Bool
  pub error : Option String

-- What the server answers for a node.
pub data Answer : Type 0 where
  loaded : List ShardInfo → Answer
  failed : String → Answer

pub record NodeShardsState : Type 0 where
  pub node_shards : Dict NodeLoad
  pub is_complete : Bool
  pub is_initial_loading : Bool
  pub controller : Option ℕ
  pub controllers : ℕ
  pub aborted : List ℕ
  pub loaded_nodes : List String
  pub has_ever_completed : Bool

abbrev pub initial_loading : NodeShardsState
initial_loading = record {
  node_shards = [];
  is_complete = false;
  is_initial_loading = true;
  controller = none;
  controllers = 0;
  aborted = [];
  loaded_nodes = [];
  has_ever_completed = false;
}

-- `abortControllerRef.current.abort()` if there is one; also what the effect leaves to clean up.
unfoldable pub abort_current : NodeShardsState → NodeShardsState
abort_current s = record s {
  aborted = elim s.controller [ none ↦ s.aborted | some c ↦ c ∷ s.aborted ];
}

-- `abortControllerRef.current?.signal.aborted`.
unfoldable pub is_aborted : NodeShardsState → Bool
is_aborted s = holds (λ c. any (λ a. a == c) s.aborted) s.controller

-- The branch of the effect for no cluster, no nodes or a view that is switched off.
unfoldable pub switch_off : NodeShardsState → NodeShardsState
switch_off s = record (abort_current s) {
  node_shards = [];
  is_complete = false;
  is_initial_loading = true;
  loaded_nodes = [];
  has_ever_completed = false;
}

abbrev pub waiting : NodeLoad
waiting = record { shards = []; loading = true; error = none }

unfoldable pub all_waiting : Dict NodeLoad → List String → Dict NodeLoad
all_waiting m [] = m
all_waiting m (id ∷ ids) = all_waiting (put id waiting m) ids

-- The other branch, up to the start of the loader.
unfoldable pub start_loading : List String → NodeShardsState → NodeShardsState
start_loading node_ids s = record (abort_current s) {
  controller = some s.controllers;
  controllers = suc s.controllers;
  node_shards = all_waiting [] node_ids;
  is_complete = false;
  is_initial_loading = if s.has_ever_completed then s.is_initial_loading else true;
  loaded_nodes = [];
}

-- The effect itself: `ready` stands for a cluster and the switch.
unfoldable pub reload : Bool → List String → NodeShardsState → NodeShardsState
reload ready [] s = switch_off s
reload ready (id ∷ ids) s = if ready then start_loading (id ∷ ids) s else switch_off s

abbrev pub load_of : Answer → NodeLoad
load_of (loaded shards) = record { shards = shards; loading = false; error = none }
load_of (failed e) = record { shards = []; loading = false; error = some e }

abbrev note_loaded : Answer → String → List String → List String
note_loaded (loaded shards) id ids = add id ids
note_loaded (failed e) id ids = ids

-- The answer for one node of a batch.
unfoldable pub receive : String → Answer → NodeShardsState → NodeShardsState
receive id answer s = if is_aborted s then s else record s {
  node_shards = put id (load_of answer) s.node_shards;
  loaded_nodes = note_loaded answer id s.loaded_nodes;
}

unfoldable pub finish : NodeShardsState → NodeShardsState
finish s =
    if is_aborted s
    then s
    else record s { is_complete = true; is_initial_loading = false; has_ever_completed = true }

-- A loader between two of its steps: the nodes of its batch that are not answered yet, and those behind
-- the batch.
pub record Loader : Type 0 where
  pub batch_size : ℕ
  pub in_flight : List String
  pub to_load : List String
  pub running : Bool

-- The hook with all loaders that it ever started, by the numbers of the controllers they started with.
pub record System : Type 0 where
  pub hook : NodeShardsState
  pub loaders : ℕ → Loader

abbrev pub no_loader : Loader
no_loader = record { batch_size = 0; in_flight = []; to_load = []; running = false }

abbrev pub initial_system : System
initial_system = record { hook = initial_loading; loaders = λ c. no_loader }

abbrev pub set_loader : ℕ → Loader → (ℕ → Loader) → ℕ → Loader
set_loader c l loaders j = if j == c then l else loaders j

abbrev pub is_empty : List String → Bool
is_empty [] = true
is_empty (x ∷ xs) = false

-- A loader that waits for no answer goes on: it sends the next batch, or ends.
unfoldable pub next_batch : ℕ → System → System
unfolding finish is_aborted
next_batch c s =
    let l = s.loaders c in
    if not l.running || not (is_empty l.in_flight)
    then s
    else if is_empty l.to_load || is_aborted s.hook
    then record {
      hook = finish s.hook;
      loaders = set_loader c (record l { running = false }) s.loaders;
    }
    else record s {
      loaders =
          set_loader c
            (record l {
              in_flight = take l.batch_size l.to_load;
              to_load = drop l.batch_size l.to_load;
            })
            s.loaders;
    }

-- The nodes that a loader is to load.
abbrev pub nodes_to_load : NodeShardsState → List String → List String
nodes_to_load s node_ids = keep (λ id. not (includes s.loaded_nodes id)) node_ids

-- The loader of the new controller, before its first step.
abbrev pub started : Bool → ℕ → List String → System → System
started ready batch_size node_ids s = record {
  hook = reload ready node_ids s.hook;
  loaders =
      set_loader s.hook.controllers
        (record {
          batch_size = batch_size;
          in_flight = [];
          to_load = nodes_to_load (reload ready node_ids s.hook) node_ids;
          running = true;
        })
        s.loaders;
}

-- The effect with the start of its loader.
unfoldable pub run_effect : Bool → ℕ → List String → System → System
unfolding reload next_batch
run_effect ready batch_size node_ids s =
    if ready && not (is_empty node_ids)
    then next_batch s.hook.controllers (started ready batch_size node_ids s)
    else record s { hook = reload ready node_ids s.hook }

abbrev pub remove_one : String → List String → List String
remove_one k [] = []
remove_one k (x ∷ xs) = if x === k then xs else x ∷ remove_one k xs

-- Whether a loader waits for the answer of a node.
abbrev pub waits_for : ℕ → String → System → Bool
waits_for c id s = (s.loaders c).running && includes (s.loaders c).in_flight id

-- The answer for a node of a loader's batch; the others do not arrive.
unfoldable pub take_answer : ℕ → String → Answer → System → System
unfolding receive
take_answer c id answer s =
    let l = s.loaders c in
    if waits_for c id s
    then record {
      hook = receive id answer s.hook;
      loaders = set_loader c (record l { in_flight = remove_one id l.in_flight }) s.loaders;
    }
    else s

-- What happens: the effect runs, an answer arrives at a loader, a loader goes on when its batch is
-- answered and the delay is over, or the view closes. Each loader's events come in any order with the
-- others'.
pub data Event : Type 0 where
  reloads : Bool → ℕ → List String → Event
  answers : ℕ → String → Answer → Event
  goes_on : ℕ → Event
  closes : Event

unfoldable pub perform : Event → System → System
unfolding run_effect take_answer next_batch abort_current
perform (reloads ready batch_size node_ids) s = run_effect ready batch_size node_ids s
perform (answers c id answer) s = take_answer c id answer s
perform (goes_on c) s = next_batch c s
perform closes s = record s { hook = abort_current s.hook }

unfoldable pub run : List Event → System → System
unfolding perform
run [] s = s
run (e ∷ rest) s = run rest (perform e s)

-- What the hook returns of the nodes.
pub all_shards : NodeShardsState → List ShardInfo
all_shards s = flat_map (λ entry. entry.1.shards) s.node_shards

pub is_loading : NodeShardsState → Bool
is_loading s = any (λ entry. entry.1.loading) s.node_shards

pub has_errors : NodeShardsState → Bool
has_errors s = any (λ entry. is_some entry.1.error) s.node_shards
