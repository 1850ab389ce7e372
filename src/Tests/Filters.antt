-- ===== src/Tests/Filters.antt =====
-- Runs of the wildcards and of the lists of shards of the topology page.
use Prim.Native.Char.{Char, code}
use secan.Base.{
  ◌≡◌, refl, ap, subst, ◌↔◌, ℕ, String, Option, none, some, List, [], ◌∷◌, ◌++◌, Bool, true, false,
  ◌==◌, ◌+++◌, or_else, arith, All, given,
}
use secan.Base.Decimal.{Without}
use secan.Api.{ShardInfo}
use secan.Canvas.{shards_of}
use secan.Grouping.{by_none}
use secan.CanvasView.{View, canvas_input, is_shown}
use secan.Tests.Data.{cluster, node_a, shard_of}
use secan.Wildcard.{matches_wildcard, read_regex, regex_pattern, test_regex}
use secan.Wildcard.Reading.{glob_items}
use secan.Wildcard.Matching.{Stands, matches_wildcard_iff}
use secan.ShardLists.{merge_shard_lists, collect_pages, paginate_vec}
use secan.ShardLists.Merging.{Plain, first_copies, merge_shard_lists-first_copies}
use secan.ShardLists.Paging.{collect_pages-all}

abbrev same_letter : Char → Char → Bool
same_letter c d = code c == code d

-- A pattern without wildcards also matches in the middle of a name.
middle : matches_wildcard same_letter "my-logs-1" "log" ≡ some true
unfolding matches_wildcard read_regex regex_pattern test_regex
middle = refl

literal_dot : matches_wildcard same_letter "a-b" "a.b" ≡ some false
unfolding matches_wildcard read_regex regex_pattern test_regex
literal_dot = refl

matches_wildcard_iff_example :
    (b : Bool) × (matches_wildcard same_letter "logs-2024" "l?gs*4" ≡ some b)
    × ((b ≡ true) ↔ (
        (before part behind : String) × ("logs-2024" ≡ before +++ (part +++ behind))
        × Stands same_letter (glob_items "l?gs*4") part))
matches_wildcard_iff_example = matches_wildcard_iff same_letter "logs-2024" "l?gs*4"

abbrev copy_on : Option String → ShardInfo
copy_on node = record {
  docs = 10;
  index = "logs";
  node = node;
  primary = false;
  shard = 0;
  state = "STARTED";
  store = 100;
  relocating_node = none;
}

abbrev copies : List ShardInfo
copies = copy_on (some "node-1") ∷ copy_on none ∷ copy_on (some "node-1") ∷ []

copies-Plain : All Plain (copies ++ copy_on none ∷ [])
copies-Plain = (on_node, ((λ node e. absurd (cc e)), (on_node, ((λ node e. absurd (cc e)), tt))))
  where
    on_node : (node : String) → some "node-1" ≡ some node → Without b':' node
    on_node node e =
        let same : "node-1" ≡ node = ap (λ o. or_else o "node-1") e in
        subst (Without b':') same (omega arith)

-- Both copies without a node stay, and one of the two on the node.
merge_shard_lists-first_copies_example :
    merge_shard_lists (some copies) (some (copy_on none ∷ []))
    ≡ copy_on (some "node-1") ∷ copy_on none ∷ copy_on none ∷ []
unfolding first_copies secan.Base.decimal
merge_shard_lists-first_copies_example =
    merge_shard_lists-first_copies (some copies) (some (copy_on none ∷ [])) copies-Plain

abbrev four : List ℕ
four = 1 ∷ 2 ∷ 3 ∷ 4 ∷ []

-- Four shards in pages of two: the third page is empty and ends the loop.
collect_pages-all_example :
    collect_pages (λ page. some (paginate_vec four page 2)) 2 5 1 ≡ some four
collect_pages-all_example = collect_pages-all four 2 (omega arith) 5 (omega arith)

abbrev near : View
near = record {
  nodes = cluster;
  all_shards = some (
      shard_of "logs" 0 true "STARTED" (some "alpha") none
      ∷ shard_of ".kibana" 0 true "STARTED" (some "alpha") none
      ∷ []);
  shard_summary = [];
  selected_shard_states = none;
  show_special_indices = false;
  index_name_filter = "";
  node_name_filter = "";
  matches_wildcard = none;
  grouping_config = record { attribute = by_none; value = none };
  relocation_mode = false;
  valid_destination_nodes = none;
  is_loading = none;
  size = (800, 600);
  is_l2 = true;
  unassigned_count_hint = 0;
}

-- The shard of the index with a dot is left out, and the other one is shown.
dotted_shards :
    shards_of (canvas_input near) node_a ≡ shard_of "logs" 0 true "STARTED" (some "alpha") none ∷ []
unfolding is_shown secan.Base.strip_prefix shards_of secan.Base.Dict.get canvas_input
    secan.Base.Dict.put
dotted_shards = refl
