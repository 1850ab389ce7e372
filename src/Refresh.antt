-- ===== src/Refresh.antt =====
-- frontend/src/contexts/RefreshContext.tsx: the interval of the automatic refresh, its pause while
-- something is dragged, and the text under which the browser stores it. `Number` of a text is a
-- parameter. An action that reads the clock takes the time; `refresh` tells which queries it
-- invalidates.
pub mod Polling
use secan.Base.{
  ℕ, ◌+◌, ◌*◌, ◌/◌, ◌==◌, ltb, String, Option, none, some, List, [], ◌∷◌, Bool, true, false, ◌&&◌,
  ◌||◌, not, if◌then◌else◌, given, any, map, decimal,
}

abbrev pub refresh_intervals : List ℕ
refresh_intervals = 0 ∷ 5000 ∷ 10000 ∷ 15000 ∷ 30000 ∷ 60000 ∷ 120000 ∷ 300000 ∷ []

abbrev pub is_interval : ℕ → Bool
is_interval n = any (λ i. i == n) refresh_intervals

-- `Number`, which is not a number for some texts.
module _ (to_number : String → Option ℕ) where
  unfoldable pub load_interval : Option String → ℕ → ℕ
  load_interval stored default_interval = elim stored [
    | none ↦ default_interval
    | some text ↦ elim (given (some text)) [
      | none ↦ default_interval
      | some t ↦ elim (to_number t) [
        | none ↦ default_interval
        | some parsed ↦ if is_interval parsed then parsed else default_interval
      ]
    ]
  ]

-- Half as long again as the interval, rounded up; five minutes where the refresh is off.
unfoldable pub calculate_cache_duration : ℕ → ℕ
calculate_cache_duration refresh_interval =
    if refresh_interval == 0
    then 5 * 60 * 1000
    else (let cache_duration = (refresh_interval * 3 + 1) / 2 in
        if ltb cache_duration 3000 then 3000 else cache_duration)

pub record RefreshState : Type 0 where
  pub interval : ℕ
  pub is_refreshing : Bool
  pub last_refresh_time : Option ℕ
  pub paused_by_drag : Bool
  pub stored : Option String

module _ (to_number : String → Option ℕ) where
  -- The provider when it mounts.
  unfoldable pub open_provider : Option String → ℕ → ℕ → RefreshState
  open_provider stored default_interval now = record {
    interval = load_interval to_number stored default_interval;
    is_refreshing = false;
    last_refresh_time = some now;
    paused_by_drag = false;
    stored = stored;
  }

unfoldable pub set_interval : ℕ → RefreshState → RefreshState
set_interval new_interval s = record s {
  interval = new_interval;
  stored = some (decimal new_interval);
}

unfoldable pub pause_polling : RefreshState → RefreshState
pause_polling s = record s { paused_by_drag = true }

unfoldable pub resume_polling : RefreshState → RefreshState
resume_polling s = record s { paused_by_drag = false }

unfoldable pub paused : RefreshState → Bool
paused s = not (s.interval == 0) && s.paused_by_drag

-- The scope of a refresh: missing, one text, or several.
pub data Scope : Type 0 where
  unscoped : Scope
  one : String → Scope
  several : List String → Scope

-- The keys whose queries are invalidated; `none` is all queries. The empty text counts as missing.
unfoldable pub invalidated : Scope → Option (List String)
invalidated unscoped = none
invalidated (one s) = elim (given (some s)) [ none ↦ none | some t ↦ some (t ∷ []) ]
invalidated (several scopes) = some scopes

unfoldable pub refresh : Scope → ℕ → RefreshState → RefreshState × Option (List String)
refresh scope now s =
    (record s { is_refreshing = true; last_refresh_time = some now }, invalidated scope)

-- The timer of a refresh ends.
unfoldable pub refresh_ends : RefreshState → RefreshState
refresh_ends s = record s { is_refreshing = false }

-- A query succeeds; while the refresh is off nobody listens.
unfoldable pub query_succeeds : ℕ → RefreshState → RefreshState
query_succeeds now s = if s.interval == 0 then s else record s { last_refresh_time = some now }

-- The interval for the queries; `none` is `false`.
unfoldable pub use_refresh_interval : RefreshState → Option ℕ
use_refresh_interval s = if s.interval == 0 || paused s then none else some s.interval

pub data RefreshAction : Type 0 where
  sets : ℕ → RefreshAction
  pauses resumes ends : RefreshAction
  refreshes : Scope → ℕ → RefreshAction
  succeeds : ℕ → RefreshAction

unfoldable pub perform : RefreshAction → RefreshState → RefreshState
perform (sets n) s = set_interval n s
perform pauses s = pause_polling s
perform resumes s = resume_polling s
perform ends s = refresh_ends s
perform (refreshes scope now) s = (refresh scope now s).0
perform (succeeds now) s = query_succeeds now s

unfoldable pub run : List RefreshAction → RefreshState → RefreshState
run [] s = s
run (a ∷ rest) s = run rest (perform a s)
