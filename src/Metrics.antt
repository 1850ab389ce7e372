-- ===== src/Metrics.antt =====
-- frontend/src/stores/metricsStore.ts: the metrics of the statistics view, with ClusterMetricsPoint
-- of frontend/src/types/openapi.generated.ts. Times are in seconds; the clock is past its first day,
-- so the start of the default range is no negative number. Percentages are whole numbers.
pub mod Stats
use secan.Base.{
  ℕ, ◌+◌, ◌-◌, ◌/◌, String, Option, none, some, List, [], ◌∷◌, Bool, true, false, ◌&&◌,
  if◌then◌else◌, ltb, leb, or_else, keep, last?, length, map,
}
use secan.Base.Dict.{Dict, get, put}
use secan.Api.{TimeRange}

pub record ClusterMetrics : Type 0 where
  pub cpu_percent : Option ℕ
  pub date : String
  pub disk_total_bytes : Option ℕ
  pub disk_used_bytes : Option ℕ
  pub document_count : Option ℕ
  pub health : String
  pub index_count : Option ℕ
  pub memory_non_heap_bytes : Option ℕ
  pub memory_used_bytes : Option ℕ
  pub node_count : ℕ
  pub shard_count : Option ℕ
  pub timestamp : ℕ
  pub unassigned_shards : Option ℕ

pub record MetricsState : Type 0 where
  pub metrics_data : List ClusterMetrics
  pub selected_time_range : Option TimeRange
  pub refresh_interval : ℕ
  pub is_loading : Bool
  pub error : Option String

-- `Math.floor(Date.now() / 1000)`, of the time in milliseconds.
abbrev pub get_default_time_range : ℕ → TimeRange
get_default_time_range date_now =
    let now = date_now / 1000 in record { start = now - 86400; end = now; label = "Last 24h" }

abbrev pub initial_metrics : ℕ → MetricsState
initial_metrics date_now = record {
  metrics_data = [];
  selected_time_range = some (get_default_time_range date_now);
  refresh_interval = 30000;
  is_loading = false;
  error = none;
}

-- `Math.max` and `Math.min` of two numbers.
abbrev pub max_of : ℕ → ℕ → ℕ
max_of a b = if ltb a b then b else a

abbrev pub min_of : ℕ → ℕ → ℕ
min_of a b = if ltb b a then b else a

unfoldable pub set_refresh_interval : ℕ → MetricsState → MetricsState
set_refresh_interval interval s = record s { refresh_interval = max_of interval 5000 }

abbrev pub in_range : TimeRange → ClusterMetrics → Bool
in_range range metric = leb range.start metric.timestamp && leb metric.timestamp range.end

abbrev pub chosen_range : Option TimeRange → Option TimeRange → Option TimeRange
chosen_range none selected = selected
chosen_range (some range) selected = some range

unfoldable pub get_metrics_for_time_range : Option TimeRange → MetricsState → List ClusterMetrics
get_metrics_for_time_range time_range s = elim (chosen_range time_range s.selected_time_range) [
  | none ↦ s.metrics_data
  | some range ↦ keep (in_range range) s.metrics_data
]

unfoldable pub get_latest_metrics : MetricsState → Option ClusterMetrics
get_latest_metrics s = last? s.metrics_data

pub record MetricsStats : Type 0 where
  pub min_timestamp : Option ℕ
  pub max_timestamp : Option ℕ
  pub count : ℕ
  pub health_status : Dict ℕ

abbrev pub no_health : Dict ℕ
no_health = ("green", 0) ∷ ("yellow", 0) ∷ ("red", 0) ∷ []

-- `healthStatus[metric.health] = (healthStatus[metric.health] || 0) + 1` for each metric.
unfoldable pub count_health : Dict ℕ → List ClusterMetrics → Dict ℕ
count_health m [] = m
count_health m (metric ∷ metrics) =
    count_health (put metric.health (or_else (get metric.health m) 0 + 1) m) metrics

-- `Math.min` and `Math.max` of a list of numbers that starts with the given one.
unfoldable pub least : ℕ → List ClusterMetrics → ℕ
least t [] = t
least t (metric ∷ metrics) = least (min_of t metric.timestamp) metrics

unfoldable pub greatest : ℕ → List ClusterMetrics → ℕ
greatest t [] = t
greatest t (metric ∷ metrics) = greatest (max_of t metric.timestamp) metrics

unfoldable pub stats_of : List ClusterMetrics → MetricsStats
stats_of [] = record { min_timestamp = none; max_timestamp = none; count = 0; health_status = [] }
stats_of (metric ∷ metrics) = record {
  min_timestamp = some (least metric.timestamp metrics);
  max_timestamp = some (greatest metric.timestamp metrics);
  count = length (metric ∷ metrics);
  health_status = count_health no_health (metric ∷ metrics);
}

unfoldable pub get_metrics_stats : MetricsState → MetricsStats
get_metrics_stats s = stats_of s.metrics_data

pub data MetricsAction : Type 0 where
  set_metrics : List ClusterMetrics → MetricsAction
  set_time_range : TimeRange → MetricsAction
  set_loading : Bool → MetricsAction
  set_error : Option String → MetricsAction
  set_interval : ℕ → MetricsAction
  reset : ℕ → MetricsAction

unfoldable pub perform : MetricsAction → MetricsState → MetricsState
perform (set_metrics metrics) s = record s { metrics_data = metrics }
perform (set_time_range range) s = record s { selected_time_range = some range }
perform (set_loading loading) s = record s { is_loading = loading }
perform (set_error error) s = record s { error = error }
perform (set_interval interval) s = set_refresh_interval interval s
perform (reset date_now) s = initial_metrics date_now

unfoldable pub run : List MetricsAction → MetricsState → MetricsState
run [] s = s
run (a ∷ rest) s = run rest (perform a s)
