-- ===== src/CanvasView/Cards.antt =====
-- frontend/src/components/Topology/CanvasTopologyView.tsx with frontend/src/utils/canvasLayout.ts: the
-- dots on the card of a node.
use mathlib.Core.List.{Mem, Memᴰ}
use mathlib.Core.List.Perm
use mathlib.Core.List.Memᴰ
use secan.Base.{◌⊎◌, List}
use secan.Api.{NodeInfo, ShardInfo}
use secan.CanvasView.{View}
use secan.CanvasView.Passing.{IsPassing, LiesOn}

module _ (v : View) where
  -- A card's shard refers to the node by its name, or by its id if none of the others refers by name.
  abbrev pub IsOn : NodeInfo → List ShardInfo → ShardInfo → Type 0
  IsOn node shards s =
      LiesOn node.name s
      ⊎ (LiesOn node.id s
          × (¬ ((t : ShardInfo) × Mem t shards × IsPassing v t × LiesOn node.name t)))
