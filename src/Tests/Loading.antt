-- ===== src/Tests/Loading.antt =====
-- Runs of the fetches, the metrics, the refresh and the sparkline.
use secan.Base.{
  ℕ, suc, ◌≡◌, refl, String, Option, none, some, List, [], ◌∷◌, true, false, arith, includes,
  if◌then◌else◌, length, ◌++◌,
}
use secan.Base.Dict.{get}
use secan.Sankey.{SankeyState, FetchAction, fetch, resolve, fail, initial_fetch}
use secan.Sankey.Latest.{run-fetch}
use secan.NodeShards.{
  Answer, loaded, failed, Event, reloads, answers, goes_on, initial_system, perform, load_of,
}
use secan.NodeShards.Rounds.{goes_on_with}
use secan.NodeShards.Progress.{run-is_complete}
use secan.Sparkline.{Render, render_each, mounted}
use secan.Sparkline.Window.{added, render_each-all_points}
use secan.Tests.Data.{moving}

-- The first fetch is answered after the second has started.
abbrev late : List (FetchAction ℕ String)
late = resolve 1 10 ∷ resolve 2 20 ∷ fail 1 "lost" ∷ []

run-fetch_example :
    secan.Sankey.run (fetch ∷ late) (secan.Sankey.start_fetch initial_fetch)
    ≡ secan.Sankey.run (fetch ∷ resolve 2 20 ∷ []) (secan.Sankey.start_fetch initial_fetch)
unfolding secan.Sankey.start_fetch
run-fetch_example =
    run-fetch late (secan.Sankey.start_fetch initial_fetch) (refl, (refl, (refl, tt)))

abbrev server : String → Answer
server id = if includes ("a1" ∷ []) id then loaded (moving ∷ []) else failed "timeout"

-- A loader is left behind with a node in flight; its answers arrive while the new one loads.
abbrev left_behind : List Event
left_behind = reloads true 1 ("c1" ∷ "a1" ∷ []) ∷ []

abbrev late_answers : List Event
late_answers =
    answers 0 "c1" (server "c1")
    ∷ goes_on 0
    ∷ answers 1 "a1" (server "a1")
    ∷ answers 0 "a1" (server "a1")
    ∷ []

run-is_complete_example :
    let now = secan.NodeShards.run late_answers (
      perform
        (reloads true 1 ("a1" ∷ "b1" ∷ []))
        (secan.NodeShards.run left_behind initial_system)) in
    let c = (secan.NodeShards.run left_behind initial_system).hook.controllers in
    let s =
      secan.NodeShards.run (goes_on_with server c (suc (length (now.loaders c).to_load)) now) now in
    ((s.loaders c).running ≡ false)
    × (s.hook.is_complete ≡ true)
    × (s.hook.is_initial_loading ≡ false)
    × ((k : String)
        → includes ("a1" ∷ "b1" ∷ []) k ≡ true
        → get k s.hook.node_shards ≡ some (load_of (server k)))
run-is_complete_example =
    run-is_complete server 1 "a1" ("b1" ∷ []) left_behind late_answers (omega arith)
      (refl, (tt, (refl, (refl, tt))))

-- The answer of the loader that was left behind is listed, although nothing asks for that node now.
late_node_listed :
    get "c1"
      (secan.NodeShards.run late_answers (
        perform
          (reloads true 1 ("a1" ∷ "b1" ∷ []))
          (secan.NodeShards.run left_behind initial_system))).hook.node_shards
    ≡ some (load_of (server "c1"))
unfolding get secan.NodeShards.run secan.NodeShards.start_loading secan.Base.Dict.put
    secan.NodeShards.all_waiting
late_node_listed = refl

-- A value that comes in the render after its refresh.
abbrev renders : List Render
renders =
    shown none none 1000
    ∷ shown (some 5) (some 2000) 2000
    ∷ shown (some 5) (some 3000) 3000
    ∷ shown (some 7) (some 3000) 3010
    ∷ []
  where
    shown : Option ℕ → Option ℕ → ℕ → Render
    shown value refresh now = record {
      current_value = value;
      last_refresh_time = refresh;
      max_data_points = 3;
      reset_key = none;
      now = now;
    }

-- The refresh and its value add a point each.
render_each-all_points_example :
    (render_each renders (mounted none)).points
    ≡ record { value = 5; timestamp = 2000 }
      ∷ record { value = 5; timestamp = 3000 }
      ∷ record { value = 7; timestamp = 3010 }
      ∷ []
unfolding added
render_each-all_points_example =
    render_each-all_points 3 none renders (omega arith) (refl, (refl, (refl, (refl, tt))))

-- A reset alone leaves no points until the value or the time of the refresh changes.
abbrev after_reset : List Render
after_reset =
    renders
    ++ record {
      current_value = some 7;
      last_refresh_time = some 3000;
      max_data_points = 3;
      reset_key = some "statistics";
      now = 3020;
    }
      ∷ []

reset_empties : (render_each after_reset (mounted none)).points ≡ []
unfolding render_each
reset_empties = refl
