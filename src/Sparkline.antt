-- ===== src/Sparkline.antt =====
-- frontend/src/hooks/useSparklineData.ts: the points of a sparkline, render by render. An effect runs in
-- the first render and in each one in which its dependencies are not those of the render before. The
-- clock is past its first second, so the time of the baseline is no negative number.
pub mod LastOf
pub mod Window
use secan.Base.{
  ℕ, ◌+◌, ◌-◌, String, Option, none, some, List, [], ◌∷◌, ◌++◌, Bool, true, false, if◌then◌else◌,
  ◌===◌, ◌==◌, ◌&&◌, not, ltb, length, drop, map,
}

pub record DataPoint : Type 0 where
  pub value : ℕ
  pub timestamp : ℕ

-- What a render gives to the hook; `now` is its time.
pub record Render : Type 0 where
  pub current_value : Option ℕ
  pub last_refresh_time : Option ℕ
  pub max_data_points : ℕ
  pub reset_key : Option String
  pub now : ℕ

-- The dependencies of the main effect.
pub record Dependencies : Type 0 where
  pub current_value : Option ℕ
  pub last_refresh_time : Option ℕ
  pub max_data_points : ℕ

abbrev pub dependencies : Render → Dependencies
dependencies r = record {
  current_value = r.current_value;
  last_refresh_time = r.last_refresh_time;
  max_data_points = r.max_data_points;
}

abbrev pub same_value : Option ℕ → Option ℕ → Bool
same_value none none = true
same_value (some m) (some n) = m == n
same_value _ _ = false

abbrev pub is_changed : Option Dependencies → Render → Bool
is_changed none r = true
is_changed (some d) r = not (
    same_value d.current_value r.current_value
    && same_value d.last_refresh_time r.last_refresh_time
    && d.max_data_points == r.max_data_points)

-- `effect_dependencies` are those of the render before, `none` before the first.
pub record SparklineState : Type 0 where
  pub points : List DataPoint
  pub initialized : Bool
  pub last_reset_key : Option String
  pub needs_immediate_data : Bool
  pub effect_dependencies : Option Dependencies

-- The hook when it mounts with a reset key.
abbrev pub mounted : Option String → SparklineState
mounted reset_key = record {
  points = [];
  initialized = false;
  last_reset_key = reset_key;
  needs_immediate_data = false;
  effect_dependencies = none;
}

abbrev pub same_key : String → Option String → Bool
same_key key none = false
same_key key (some last) = key === last

-- The effect of a reset key.
unfoldable pub change_reset_key : Option String → SparklineState → SparklineState
change_reset_key none s = s
change_reset_key (some key) s = if same_key key s.last_reset_key then s else record s {
  last_reset_key = some key;
  initialized = false;
  needs_immediate_data = true;
  points = [];
}

abbrev pub baseline : ℕ → ℕ → List DataPoint
baseline value now =
    record { value = 0; timestamp = now - 1000 } ∷ record { value = value; timestamp = now } ∷ []

-- The new array with a point at its end, cut down to the limit from its front.
unfoldable pub add_point : ℕ → DataPoint → List DataPoint → List DataPoint
add_point max_data_points point prev =
    let new_data = prev ++ point ∷ [] in
    if ltb max_data_points (length new_data)
    then drop (length new_data - max_data_points) new_data
    else new_data

-- The main effect.
unfoldable pub track : ℕ → Option ℕ → ℕ → SparklineState → SparklineState
track max_data_points none now s = s
track max_data_points (some value) now s =
    if s.initialized
    then record s {
      points = add_point max_data_points (record { value = value; timestamp = now }) s.points;
      needs_immediate_data = false;
    }
    else record s { points = baseline value now; initialized = true; needs_immediate_data = false }

-- A render with its effects; the third effect does nothing.
unfoldable pub render : Render → SparklineState → SparklineState
unfolding change_reset_key track
render r s =
    let reset = change_reset_key r.reset_key s in
    if is_changed s.effect_dependencies r
    then record (track r.max_data_points r.current_value r.now reset) {
      effect_dependencies = some (dependencies r);
    }
    else reset

unfoldable pub render_each : List Render → SparklineState → SparklineState
unfolding render
render_each [] s = s
render_each (r ∷ rest) s = render_each rest (render r s)

-- What the hook returns without timestamps.
abbrev pub values : SparklineState → List ℕ
values s = map (λ (d : DataPoint). d.value) s.points
