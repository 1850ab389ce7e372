-- ===== src/Metrics/Stats.antt =====
-- What the selectors of frontend/src/stores/metricsStore.ts say of the data.
use secan.Base.{
  ℕ, ◌+◌, ◌≤◌, ◌≡◌, refl, ap, subst, String, some, List, [], ◌∷◌, Bool, true, ◌&&◌, if◌then◌else◌,
  leb, or_else, keep, length, All, any, ◌==◌, ◌||◌, arith, eq_iff, ◌===◌,
}
use secan.Base.Dict.{Dict, get, put, get-put}
use secan.Metrics.{
  ClusterMetrics, MetricsState, initial_metrics, set_refresh_interval, no_health, count_health,
  least, greatest, stats_of, get_metrics_stats, get_metrics_for_time_range, min_of, max_of,
  MetricsAction, set_metrics, set_time_range, set_loading, set_error, set_interval, reset, perform,
  run,
}

-- The number of points with a health.
abbrev pub occurrences : String → List ClusterMetrics → ℕ
occurrences k [] = 0
occurrences k (x ∷ xs) = (if x.health === k then 1 else 0) + occurrences k xs

least_le :
    (t : ℕ) (xs : List ClusterMetrics) → (least t xs ≤ t) × All (λ x. least t xs ≤ x.timestamp) xs
unfolding least
least_le t [] = (omega arith, tt)
least_le t (x ∷ xs) =
    let (first, rest) = least_le (min_of t x.timestamp) xs in
    (ground (arith, first), (ground (arith, first), rest))

greatest_le :
    (t : ℕ) (xs : List ClusterMetrics)
    → (t ≤ greatest t xs) × All (λ x. x.timestamp ≤ greatest t xs) xs
unfolding greatest
greatest_le t [] = (omega arith, tt)
greatest_le t (x ∷ xs) =
    let (first, rest) = greatest_le (max_of t x.timestamp) xs in
    (ground (arith, first), (ground (arith, first), rest))

count_health-occurrences :
    (k : String) (m : Dict ℕ) (xs : List ClusterMetrics)
    → or_else (get k (count_health m xs)) 0 ≡ or_else (get k m) 0 + occurrences k xs
unfolding count_health
count_health-occurrences k m [] = omega arith
count_health-occurrences k m (x ∷ xs) = ground (
  arith,
  count_health-occurrences k (put x.health (or_else (get x.health m) 0 + 1) m) xs,
  get-put x.health k (or_else (get x.health m) 0 + 1) m,
  eq_iff x.health k,
)

keep-All :
    (p : ClusterMetrics → Bool) (xs : List ClusterMetrics)
    → All (λ x. p x ≡ true) xs
    → keep p xs ≡ xs
keep-All p [] h = refl
keep-All p (x ∷ xs) h = rw h.0 (ap (◌∷◌ x) (keep-All p xs h.1))

least_attained :
    (t : ℕ) (xs : List ClusterMetrics)
    → (t == least t xs || any (λ x. x.timestamp == least t xs) xs) ≡ true
unfolding least
least_attained t [] = ground arith
least_attained t (x ∷ xs) = ground (arith, least_attained (min_of t x.timestamp) xs)

greatest_attained :
    (t : ℕ) (xs : List ClusterMetrics)
    → (t == greatest t xs || any (λ x. x.timestamp == greatest t xs) xs) ≡ true
unfolding greatest
greatest_attained t [] = ground arith
greatest_attained t (x ∷ xs) = ground (arith, greatest_attained (max_of t x.timestamp) xs)

All-between :
    (lo hi : ℕ) (xs : List ClusterMetrics)
    → All (λ x. lo ≤ x.timestamp) xs
    → All (λ x. x.timestamp ≤ hi) xs
    → All (λ x. (lo ≤ x.timestamp) × (x.timestamp ≤ hi)) xs
All-between lo hi [] h k = tt
All-between lo hi (x ∷ xs) h k = ((h.0, k.0), All-between lo hi xs h.1 k.1)

-- What the two ends of the statistics say of a list of points.
abbrev pub AreEnds : ℕ → ℕ → List ClusterMetrics → Type 0
AreEnds lo hi xs =
    All (λ x. (lo ≤ x.timestamp) × (x.timestamp ≤ hi)) xs
    × (any (λ x. x.timestamp == lo) xs ≡ true)
    × (any (λ x. x.timestamp == hi) xs ≡ true)

stats_of-AreEnds :
    (xs : List ClusterMetrics) (lo hi : ℕ)
    → (stats_of xs).min_timestamp ≡ some lo
    → (stats_of xs).max_timestamp ≡ some hi
    → AreEnds lo hi xs
unfolding stats_of
stats_of-AreEnds [] lo hi h k = cc
stats_of-AreEnds (x ∷ xs) lo hi h k =
    let e : least x.timestamp xs ≡ lo = some-injective h in
    let f : greatest x.timestamp xs ≡ hi = some-injective k in
    subst (λ a. AreEnds a hi (x ∷ xs)) e
      (subst (λ b. AreEnds (least x.timestamp xs) b (x ∷ xs)) f
        (
          All-between _ _ (x ∷ xs) (least_le x.timestamp xs) (greatest_le x.timestamp xs),
          least_attained x.timestamp xs,
          greatest_attained x.timestamp xs,
        ))
  where
    some-injective : {a b : ℕ} → some a ≡ some b → a ≡ b
    some-injective e = cc e

-- The two ends that the statistics report bound the times of all points, and each is the time of a
-- point.
pub get_metrics_stats-AreEnds :
    (s : MetricsState) (lo hi : ℕ)
    → (get_metrics_stats s).min_timestamp ≡ some lo
    → (get_metrics_stats s).max_timestamp ≡ some hi
    → AreEnds lo hi s.metrics_data
unfolding get_metrics_stats
get_metrics_stats-AreEnds s lo hi h k = stats_of-AreEnds s.metrics_data lo hi h k

-- The statistics count the points, and for each health, listed by the source or not, the points
-- that have it; a health without an entry has no point.
pub get_metrics_stats-occurrences :
    (s : MetricsState) (k : String)
    → ((get_metrics_stats s).count ≡ length s.metrics_data)
      × (or_else (get k (get_metrics_stats s).health_status) 0 ≡ occurrences k s.metrics_data)
unfolding get_metrics_stats stats_of get
get_metrics_stats-occurrences s k = counts s.metrics_data
  where
    none_yet : or_else (get k no_health) 0 ≡ 0
    none_yet = ground (arith, eq_iff "green" k, eq_iff "yellow" k, eq_iff "red" k)

    counts :
        (xs : List ClusterMetrics)
        → ((stats_of xs).count ≡ length xs)
          × (or_else (get k (stats_of xs).health_status) 0 ≡ occurrences k xs)
    counts [] = (refl, refl)
    counts (x ∷ xs) = (refl, omega (arith, count_health-occurrences k no_health (x ∷ xs), none_yet))

-- The range between the two ends of the statistics selects all points.
pub get_metrics_for_time_range-whole :
    (s : MetricsState) (lo hi : ℕ) (label : String)
    → (get_metrics_stats s).min_timestamp ≡ some lo
    → (get_metrics_stats s).max_timestamp ≡ some hi
    → get_metrics_for_time_range (some (record { start = lo; end = hi; label = label })) s
      ≡ s.metrics_data
unfolding get_metrics_for_time_range
get_metrics_for_time_range-whole s lo hi label h k =
    keep-All _ s.metrics_data (inside s.metrics_data (get_metrics_stats-AreEnds s lo hi h k).0)
  where
    inside :
        (xs : List ClusterMetrics)
        → All (λ x. (lo ≤ x.timestamp) × (x.timestamp ≤ hi)) xs
        → All (λ x. (leb lo x.timestamp && leb x.timestamp hi) ≡ true) xs
    inside [] a = tt
    inside (x ∷ xs) a = (ground (arith, a.0.0, a.0.1), inside xs a.1)

-- After any sequence of actions the refresh interval is at least five seconds.
pub run-refresh_interval :
    (actions : List MetricsAction) (date_now : ℕ)
    → 5000 ≤ (run actions (initial_metrics date_now)).refresh_interval
unfolding run perform set_refresh_interval
run-refresh_interval actions date_now = kept actions (initial_metrics date_now) (omega arith)
  where
    step :
        (a : MetricsAction) (s : MetricsState)
        → 5000 ≤ s.refresh_interval
        → 5000 ≤ (perform a s).refresh_interval
    step (set_metrics metrics) s h = h
    step (set_time_range range) s h = h
    step (set_loading loading) s h = h
    step (set_error error) s h = h
    step (set_interval interval) s h = ground arith
    step (reset now) s h = omega arith

    kept :
        (todo : List MetricsAction) (s : MetricsState)
        → 5000 ≤ s.refresh_interval
        → 5000 ≤ (run todo s).refresh_interval
    kept [] s h = h
    kept (a ∷ rest) s h = kept rest (perform a s) (step a s h)
