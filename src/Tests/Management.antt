-- ===== src/Tests/Management.antt =====
-- Runs of the listing of indices, of the allocation and of the watermarks.
use Prim.Native.Nat.{Ordering}
use secan.Base.{
  ◌≡◌, refl, ◌≤◌, arith, String, Option, none, some, List, [], ◌∷◌, true, false, not, ◌&&◌, ◌||◌,
  ◌===◌, if◌then◌else◌, any, keep, includes, truthy,
}
use secan.Base.Sort.{IsConsistent, IsSorted}
use secan.Api.{ShardInfo}
use secan.Json.{whole, Value, field, text, object, null, end, chain}
use secan.Client.Requests
use secan.Client.Requests.{Request, Method}
use secan.Client.Queries.{proxy_request}
use secan.Watermarks.{get_watermark_color, default_watermarks}
use secan.Watermarks.Levels.{severity, get_watermark_color_mono}
use secan.Management.{
  filtered_indices, is_affected, cluster_settings_of, allocation_state, shard_allocation_enabled,
  enable_of,
}
use secan.Management.Requests.{
  AllocationMode, primaries, mode_text, transient_setting, set_allocation,
}
use secan.Management.Listing.{filtered_indices_iff}
use secan.Management.Allocation.{set_allocation-shows}

abbrev shard_of : String → String → ShardInfo
shard_of index state = record {
  docs = 1;
  index = index;
  node = none;
  primary = true;
  shard = 0;
  state = state;
  store = 1;
  relocating_node = none;
}

abbrev listed : List ShardInfo
listed = shard_of "logs" "STARTED" ∷ shard_of "users" "UNASSIGNED" ∷ shard_of "logs" "STARTED" ∷ []

-- A comparison that takes all names for equal.
abbrev no_order : String → String → Ordering
no_order a b = Ordering.eq

no_order-IsConsistent : IsConsistent no_order
no_order-IsConsistent = record { flips = λ x y. refl; trans = λ x y z p q. refl }

filtered_indices_iff_example :
    ((index : String)
      → includes (filtered_indices (λ n f. n === f) no_order "" true true listed) index ≡ (
          any (λ s. s.index === index) listed
          && (not (truthy "") || (index === ""))
          && (not true || any is_affected (keep (λ s. s.index === index) listed))))
    × IsSorted
        (λ a b. if true then no_order a b else no_order b a)
        (filtered_indices (λ n f. n === f) no_order "" true true listed)
filtered_indices_iff_example =
    filtered_indices_iff (λ n f. n === f) no_order no_order-IsConsistent "" true true listed

-- A server that keeps the one setting.
abbrev sent : Option Requests.Json → String
sent
      (some (
        Requests.object
          (Requests.field t (Requests.object (Requests.field n (Requests.text v) rest)) more))) =
    v
sent _ = ""

abbrev nested : String → Value
nested t = object (
    field "cluster"
      (object (
        field "routing" (object (field "allocation" (object (field "enable" (text t) end)) end))
          end))
      end)

abbrev serve : Request → Value → Value
serve r before =
    object (field "transient" (nested (sent r.body)) (field "persistent" (nested "none") end))

serve-nests :
    (mode : AllocationMode) (before : Value)
    → let request =
        proxy_request Method.put "/_cluster/settings"
          (some (transient_setting "cluster.routing.allocation.enable" (mode_text mode))) in
      enable_of (chain (some (serve request before)) "transient") ≡ some (text (mode_text mode))
unfolding proxy_request
serve-nests mode before = refl

set_allocation-shows_example :
    (allocation_state (some (cluster_settings_of (some (serve (set_allocation primaries) null))))
      ≡ "primaries")
    × (shard_allocation_enabled
          (some (cluster_settings_of (some (serve (set_allocation primaries) null))))
        ≡ false)
set_allocation-shows_example = set_allocation-shows serve serve-nests primaries null

get_watermark_color_mono_example :
    severity (get_watermark_color (whole 86) default_watermarks)
    ≤ severity (get_watermark_color (whole 91) default_watermarks)
get_watermark_color_mono_example =
    get_watermark_color_mono (whole 86) (whole 91) refl refl (omega arith) refl default_watermarks
