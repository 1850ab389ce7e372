-- ===== src/NodeShards/Staleness.antt =====
-- Which loader's answers are taken after the nodes or the cluster changed.
use secan.Base.{◌≡◌, ap, ◌∙◌, String, some, List, ◌∷◌, true, arith, eq_iff}
use secan.Base.Dict.{get, get-put}
use secan.NodeShards.{Answer, Event, initial_system, reload, receive, start_loading, load_of, run}
use secan.NodeShards.Loading.{receive-is_aborted}
use secan.NodeShards.Numbering.{run-IsNumbered, initial-IsNumbered, start_loading-is_aborted}

-- After a reload every answer is stored, for whichever node and whichever loader asked for it: the
-- guard asks the new controller, which is not aborted.
pub receive-reload :
    (es : List Event) (id : String) (ids : List String) (k : String) (answer : Answer)
    → get k (receive k answer (reload true (id ∷ ids) (run es initial_system).hook)).node_shards
      ≡ some (load_of answer)
unfolding reload
receive-reload es id ids k answer =
    let before = (run es initial_system).hook in
    let numbered = run-IsNumbered es initial_system initial-IsNumbered in
    let going = start_loading-is_aborted (id ∷ ids) before numbered in
    let (_, shards, _, _) = receive-is_aborted k answer (start_loading (id ∷ ids) before) going in
    ap (get k) shards
    ∙ get-put k k (load_of answer) (start_loading (id ∷ ids) before).node_shards
    ∙ ground (arith, eq_iff k k)
