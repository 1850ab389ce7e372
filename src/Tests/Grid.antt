-- ===== src/Tests/Grid.antt =====
-- Runs of the parser of the shard grid.
use secan.Base.{ℕ, ◌≡◌, String, some, List, All, flat_map}
use secan.Api.{NodeWithShards}
use secan.ShardGrid.{parse_nodes_with_shards}
use secan.ShardGrid.Cells.{contribution, parse_nodes_with_shards-cells}
use secan.ShardGrid.Pushes.{cell, infos}
use secan.ShardGrid.Belongs.{Belongs, parse_nodes_with_shards-Belongs}
use secan.Tests.Data.{cluster, shards}

parse_nodes_with_shards-cells_example :
    (grid : List NodeWithShards) × (parse_nodes_with_shards cluster shards ≡ some grid)
    × (infos grid ≡ cluster)
    × ((i : ℕ) (k : String) → cell i k grid ≡ flat_map (contribution cluster i k) shards)
parse_nodes_with_shards-cells_example = parse_nodes_with_shards-cells cluster shards

abbrev parsed : List NodeWithShards
parsed = (parse_nodes_with_shards-cells cluster shards).0

parse_nodes_with_shards-Belongs_example : All (Belongs cluster 1 "logs") (cell 1 "logs" parsed)
parse_nodes_with_shards-Belongs_example =
    parse_nodes_with_shards-Belongs cluster shards parsed 1 "logs"
      (parse_nodes_with_shards-cells cluster shards).1
