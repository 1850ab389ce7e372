-- ===== src/Relocation/Sending.antt =====
-- frontend/src/pages/ClusterView.tsx: the relocation of a shard, from its selection to the request.
use mathlib.Core.Option
use secan.Base.{
  ◌≡◌, refl, sym, ap, ◌∙◌, String, Option, some, List, [], ◌∷◌, Bool, true, false, not, ◌||◌,
  includes, map, keep, find_last, is_some, length, ◌===◌, ◌==◌, arith, Bool-cases, Option-cases,
  inl, inr,
}
use secan.Api.{NodeInfo, ShardInfo}
use secan.Client.Requests.{Request}
use secan.Client.Commands.{relocate_shard}
use secan.Relocation.{
  RelocationState, idle, is_at, Found, find_destinations, nothing_found, handle_menu_close,
  handle_select_for_relocation, handle_destination_click, find_node, handle_confirm_relocation,
  relocation_settled, start_with,
}
use secan.Relocation.Choice.{may_take, find_destinations-keep}

abbrev pub ids : (NodeInfo → Bool) → List NodeInfo → List String
ids p nodes = map (λ (n : NodeInfo). n.id) (keep p nodes)

find_node-ids :
    (p : NodeInfo → Bool) (nodes : List NodeInfo) (k : String)
    → includes (ids p nodes) k ≡ true
    → (d : NodeInfo) × (find_node k nodes ≡ some d) × ((d.id === k || d.name === k) ≡ true)
unfolding find_node
find_node-ids p [] k h = cc h
find_node-ids p (n ∷ nodes) k h = elim (Bool-cases (n.id === k || n.name === k)) [
  | inl hit ↦ (n, rw hit refl, hit)
  | inr miss ↦
      let (d, found, matches) = find_node-ids p nodes k (ground (arith, h, miss)) in
      (d, rw miss found, matches)
]

nonempty : (xs : List String) (k : String) → includes xs k ≡ true → (length xs == 0) ≡ false
nonempty [] k h = cc h
nonempty (x ∷ xs) k h = ground arith

module _ (nodes : List NodeInfo) (shards : List ShardInfo) (shard : ShardInfo) where
  abbrev found : Found
  found = find_destinations shards shard nothing_found nodes

  abbrev pub clicked : String → RelocationState → RelocationState
  clicked k s =
      handle_destination_click nodes k (handle_select_for_relocation nodes (some shards) shard s)

  handle_destination_click-chosen :
      (k : String) (s : RelocationState)
      → includes found.valid_destinations k ≡ true
      → clicked k s ≡ record (handle_menu_close (start_with shard found s)) {
        destination_node = find_node k nodes;
        confirm_opened = true;
      }
  unfolding handle_destination_click handle_select_for_relocation handle_menu_close
  handle_destination_click-chosen k s h = rw (nonempty found.valid_destinations k h) (rw h refl)

  -- The request that goes out for a destination, where the shard's node is known.
  abbrev pub request_to : NodeInfo → Option Request
  request_to destination =
      Option.map
        (λ (source : NodeInfo). relocate_shard source.id shard.index shard.shard destination.id)
        (find_last (λ n. is_at n shard) nodes)

  confirmed :
      (k : String) (s : RelocationState) (d : NodeInfo)
      → includes found.valid_destinations k ≡ true
      → find_node k nodes ≡ some d
      → ((handle_confirm_relocation (clicked k s)).1 ≡ request_to d)
        × (relocation_settled (handle_confirm_relocation (clicked k s)).0
            ≡ record idle { confirm_opened = not (is_some (request_to d)) })
  unfolding handle_confirm_relocation relocation_settled handle_menu_close
  confirmed k s d h there = elim (Option-cases (find_last (λ n. is_at n shard) nodes)) [
    | inl missing ↦
        rw (handle_destination_click-chosen k s h)
          (rw ((find_destinations-keep shards shard nodes).1, there, missing) (refl, refl))
    | inr (source, known) ↦
        rw (handle_destination_click-chosen k s h)
          (rw ((find_destinations-keep shards shard nodes).1, there, known) (refl, refl))
  ]

-- A shard is selected, a node is clicked that may take it, and the dialog is confirmed, all with one
-- list of nodes, from any state: a node is found that has the clicked text as its id or name, and the
-- request moves the shard from its own node to that one; if its own node is not listed, no request is
-- sent and the dialog stays open. When the request has ended the state is the idle one.
pub handle_confirm_relocation-sends :
    (nodes : List NodeInfo) (shards : List ShardInfo) (shard : ShardInfo) (s : RelocationState)
    (k : String)
    → includes (ids (may_take shards shard) nodes) k ≡ true
    → let (after, sent) = handle_confirm_relocation (clicked nodes shards shard k s) in
      (d : NodeInfo) × ((d.id === k || d.name === k) ≡ true)
      × (sent ≡ request_to nodes shards shard d)
      × (relocation_settled after ≡ record idle { confirm_opened = not (is_some sent) })
handle_confirm_relocation-sends nodes shards shard s k h =
    let (d, there, matches) = find_node-ids (may_take shards shard) nodes k h in
    let valid = find_destinations-keep shards shard nodes in
    let (sent, after) = confirmed nodes shards shard k s d (rw valid.0 h) there in
    (
      d,
      matches,
      sent,
      after ∙ ap (λ r. record idle { confirm_opened = not (is_some r) }) (sym sent),
    )
