-- ===== src/NodeShards/Progress.antt =====
-- A loader that gets its answers, whatever the loaders before it still do, loads every node.
use secan.Base.{
  ℕ, suc, ◌<◌, ◌≡◌, refl, sym, ap, ◌∙◌, inl, inr, String, some, List, [], ◌∷◌, true, false, not,
  includes, keep, length, arith, subst, All,
}
use secan.Base.Dict.{get}
use secan.NodeShards.{
  Answer, Loader, System, Event, reloads, load_of, initial_system, started, next_batch,
  nodes_to_load, start_loading, reload, run_effect, perform, run,
}
use secan.NodeShards.Rounds.{goes_on_with, goes_on_with-IsQuiet, loader_here, run-goes_on_with}
use secan.NodeShards.Numbering.{
  IsNumbered, run-IsNumbered, initial-IsNumbered, start_loading-is_aborted,
}
use secan.NodeShards.Loading.{IsLoading, is_open, IsQuiet}
use secan.NodeShards.Steps.{run-IsLoading, next_batch-IsLoading}

keep_true : (xs : List String) → keep (λ id. not (includes [] id)) xs ≡ xs
keep_true [] = refl
keep_true (x ∷ xs) = ap (◌∷◌ x) (keep_true xs)

all_open :
    (ids loaded : List String) (k : String)
    → loaded ≡ []
    → includes ids k ≡ true
    → includes (keep (λ id. not (includes loaded id)) ids) k ≡ true
all_open ids loaded k none_loaded listed =
    ap (λ l. includes (keep (λ id. not (includes l id)) ids) k) none_loaded
    ∙ ap (λ l. includes l k) (keep_true ids)
    ∙ listed

started-IsLoading :
    (server : String → Answer) (n : ℕ) (id : String) (ids : List String) (s : System)
    → 0 < n
    → IsNumbered s.hook
    → IsLoading server s.hook.controllers (id ∷ ids) (started true n (id ∷ ids) s)
unfolding reload
started-IsLoading server n id ids s p numbered =
    let c = s.hook.controllers in
    let hook = start_loading (id ∷ ids) s.hook in
    let new : Loader = record {
      batch_size = n;
      in_flight = [];
      to_load = nodes_to_load hook (id ∷ ids);
      running = true;
    } in
    let here = loader_here c new s.loaders in
    record {
      going = start_loading-is_aborted (id ∷ ids) s.hook numbered;
      sized = subst (λ (l : Loader). 0 < l.batch_size) (sym here) p;
      held = λ k listed. inr (
          ap (λ l. is_open l k) here
          ∙ all_open (id ∷ ids) hook.loaded_nodes k (unfold start_loading in refl) listed);
      ended = λ stopped. absurd (cc (stopped, ap (λ (l : Loader). l.running) here));
    }

-- After whatever events, the effect runs for some nodes and batches of at least one, which starts a
-- loader. Then answers arrive and loaders go on in any order, those that were started before and the new
-- one, while the effect does not run again and the view stays open, and the server has one answer for
-- each node. If from there on the new loader gets each answer that it waits for and goes on, it has
-- ended after one round more than it has nodes behind its batch: the loading is complete, the first loading is
-- over, and each of the nodes has the answer of the server.
pub run-is_complete :
    (server : String → Answer) (batch_size : ℕ) (id : String) (ids : List String)
    (before between : List Event)
    → 0 < batch_size
    → All (IsQuiet server) between
    → let c = (run before initial_system).hook.controllers in
      let now =
        run between (perform (reloads true batch_size (id ∷ ids)) (run before initial_system)) in
      let s = run (goes_on_with server c (suc (length (now.loaders c).to_load)) now) now in
      ((s.loaders c).running ≡ false)
      × (s.hook.is_complete ≡ true)
      × (s.hook.is_initial_loading ≡ false)
      × ((k : String)
          → includes (id ∷ ids) k ≡ true
          → get k s.hook.node_shards ≡ some (load_of (server k)))
unfolding perform run_effect
run-is_complete server n id ids before between p quiet =
    let first = run before initial_system in
    let c = first.hook.controllers in
    let begun = next_batch c (started true n (id ∷ ids) first) in
    let now = run between begun in
    let rounds = suc (length (now.loaders c).to_load) in
    let numbered = run-IsNumbered before initial_system initial-IsNumbered in
    let loading = run-IsLoading server c (id ∷ ids) between begun quiet (
      next_batch-IsLoading server c (id ∷ ids) c (started true n (id ∷ ids) first)
        (started-IsLoading server n id ids first p numbered)) in
    let after =
      run-IsLoading server c (id ∷ ids) (goes_on_with server c rounds now) now
        (goes_on_with-IsQuiet server c rounds now) loading in
    let stopped = run-goes_on_with server c rounds now loading.sized (omega arith) in
    let (complete, over, closed) = after.ended stopped in
    (
      stopped,
      complete,
      over,
      λ k listed. elim (after.held k listed) [
        | inl there ↦ there
        | inr waits ↦ absurd (cc (waits, closed k))
      ],
    )
