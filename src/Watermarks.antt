-- ===== src/Watermarks.antt =====
-- frontend/src/hooks/useWatermarks.ts: the thresholds of disk use from the cluster's settings, and the
-- colour of a percentage. `parseFloat`, where `none` is NaN, and `String` are parameters.
pub mod Levels
use Prim.Native.Char.{code}
use Prim.Native.String.{[], ◌∷◌}
use mathlib.Core.List.{[], ◌∷◌}
use secan.Base.{
  ◌*◌, String, Option, none, some, List, Bool, true, false, ◌&&◌, if◌then◌else◌, leb, ◌==◌, truthy,
}
use secan.Json.{Number, whole, Value, chain}
use secan.Management.{ClusterSettings}

pub record WatermarkThresholds : Type 0 where
  pub low : Number
  pub high : Number
  pub flood_stage : Number

abbrev pub default_watermarks : WatermarkThresholds
default_watermarks = record { low = whole 85; high = whole 90; flood_stage = whole 95 }

abbrev pub ends_in_percent : String → Bool
ends_in_percent String.[] = false
ends_in_percent (String.◌∷◌ c String.[]) = code c == 37
ends_in_percent (String.◌∷◌ c (String.◌∷◌ d s)) = ends_in_percent (String.◌∷◌ d s)

abbrev pub or_number : Option Number → Number → Number
or_number none d = d
or_number (some n) d = n

-- The value of a watermark in one source of the settings.
abbrev pub watermark_in : Option Value → String → Option Value
watermark_in source key =
    chain
      (chain (chain (chain (chain (chain source "cluster") "routing") "allocation") "disk")
        "watermark")
      key

module _ (parse_float : String → Option Number) (to_text : Value → String) where
  unfoldable pub parse_watermark : Option String → Number → Number
  parse_watermark none d = d
  parse_watermark (some v) d =
      if truthy v && ends_in_percent v then or_number (parse_float v) d else d

  -- The first source that has a value for the key, which may be null.
  unfoldable pub get_watermark_value : List (Option Value) → String → Option String
  get_watermark_value [] key = none
  get_watermark_value (source ∷ rest) key = elim (watermark_in source key) [
    | none ↦ get_watermark_value rest key
    | some v ↦ some (to_text v)
  ]

  unfoldable pub extract_watermarks : ClusterSettings → WatermarkThresholds
  unfolding parse_watermark get_watermark_value
  extract_watermarks s =
      let sources : List (Option Value) = s.transient ∷ s.persistent ∷ s.defaults ∷ [] in
      record {
        low = parse_watermark (get_watermark_value sources "low") default_watermarks.low;
        high = parse_watermark (get_watermark_value sources "high") default_watermarks.high;
        flood_stage =
            parse_watermark (get_watermark_value sources "flood_stage")
              default_watermarks.flood_stage;
      }

  unfoldable pub watermarks_of : Option ClusterSettings → WatermarkThresholds
  unfolding extract_watermarks
  watermarks_of none = default_watermarks
  watermarks_of (some s) = extract_watermarks s

-- `a >= b` of two numbers.
abbrev pub at_least : Number → Number → Bool
at_least a b =
    if a.negative
    then (if b.negative
        then leb (a.over * b.under) (b.over * a.under)
        else (a.over == 0 && b.over == 0))
    else if b.negative
    then true
    else leb (b.over * a.under) (a.over * b.under)

unfoldable pub get_watermark_color : Number → WatermarkThresholds → String
get_watermark_color percent w =
    if at_least percent w.flood_stage
    then "red"
    else if at_least percent w.high
    then "orange"
    else if at_least percent w.low
    then "yellow"
    else "blue"
