-- ===== src/Sparkline/Window.antt =====
-- The points of a sparkline are a window on all values.
use mathlib.Core.List.{append-nil}
use secan.Base.{
  ℕ, ◌-◌, ◌≤◌, ◌≡◌, refl, sym, ap, ◌∙◌, some, List, [], ◌∷◌, ◌++◌, true, false, drop, arith,
  Bool-cases, Option-cases, inl, inr, String, Option, none, Bool, not, ◌===◌, ◌==◌, ◌||◌,
  if◌then◌else◌, map, All, subst, eq_iff,
}
use secan.Sparkline.{
  DataPoint, Render, Dependencies, dependencies, is_changed, same_value, SparklineState, baseline,
  add_point, track, change_reset_key, render, render_each, mounted,
}
use secan.Sparkline.LastOf.{last_of, drop_nil, last_of-snoc, add_point-last_of}

-- The values that the renders since the last reset add, with their times: a render adds its value, if it
-- has one, where the value, the time of the refresh or the limit is not that of the render before, or it
-- is the first. A reset key that is not the last one drops what was added before.
abbrev pub is_reset : Option String → Option String → Bool
is_reset last none = false
is_reset none (some key) = true
is_reset (some last) (some key) = not (key === last)

abbrev pub last_key : Option String → Option String → Option String
last_key last none = last
last_key last (some key) = some key

abbrev pub entry_of : Render → List (ℕ × ℕ)
entry_of r = elim r.current_value [ none ↦ [] | some v ↦ (v, r.now) ∷ [] ]

-- Whether a render is the first one or differs from the one before in one of the three.
abbrev pub differs : Option Dependencies → Render → Bool
differs none r = true
differs (some d) r =
    not (same_value d.current_value r.current_value)
    || not (same_value d.last_refresh_time r.last_refresh_time)
    || not (d.max_data_points == r.max_data_points)

unfoldable pub added :
    Option String → Option Dependencies → List (ℕ × ℕ) → List Render → List (ℕ × ℕ)
added last before entries [] = entries
added last before entries (r ∷ rest) =
    let kept = if is_reset last r.reset_key then [] else entries in
    added (last_key last r.reset_key) (some (dependencies r))
      (if differs before r then kept ++ entry_of r else kept) rest

abbrev pub point_of : ℕ × ℕ → DataPoint
point_of (v, t) = record { value = v; timestamp = t }

-- The points of values and their times, the oldest first, behind the baseline.
abbrev pub all_points : List (ℕ × ℕ) → List DataPoint
all_points [] = []
all_points ((value, now) ∷ rest) = baseline value now ++ map point_of rest

abbrev is_full : List (ℕ × ℕ) → Bool
is_full [] = false
is_full (e ∷ es) = true

-- What the state has of the entries.
record Shows (max : ℕ) (last : Option String) (before : Option Dependencies)
    (entries : List (ℕ × ℕ)) (s : SparklineState) : Type 0 where
  points : s.points ≡ last_of max (all_points entries)
  begun : s.initialized ≡ is_full entries
  key : s.last_reset_key ≡ last
  dependencies : s.effect_dependencies ≡ before

map-snoc :
    (es : List (ℕ × ℕ)) (e : ℕ × ℕ)
    → map point_of (es ++ e ∷ []) ≡ map point_of es ++ point_of e ∷ []
map-snoc [] e = refl
map-snoc (x ∷ es) e = ap (λ l. point_of x ∷ l) (map-snoc es e)

module _ (max : ℕ) (two : 2 ≤ max) (last : Option String) (before : Option Dependencies) where
  -- The main effect with a value.
  track-Shows :
      (v t : ℕ) (entries : List (ℕ × ℕ)) (s : SparklineState)
      → Shows max last before entries s
      → Shows max last before (entries ++ (v, t) ∷ []) (track max (some v) t s)
  unfolding track
  track-Shows v t [] s h =
      let whole : 0 ≡ 2 - max = omega arith in
      rw h.begun (record {
        points = ap (λ l. drop l (baseline v t)) whole;
        begun = refl;
        key = h.key;
        dependencies = h.dependencies;
      })
  track-Shows v t (e ∷ es) s h = rw h.begun (record {
    points =
        ap (add_point max (point_of (v, t))) h.points
        ∙ add_point-last_of max (point_of (v, t)) (last_of max (all_points (e ∷ es)))
        ∙ last_of-snoc max (all_points (e ∷ es)) (point_of (v, t))
        ∙ ap (λ ps. last_of max (baseline e.0 e.1 ++ ps)) (sym (map-snoc es (v, t)));
    begun = refl;
    key = h.key;
    dependencies = h.dependencies;
  })

  track-entry_of :
      (r : Render) (entries : List (ℕ × ℕ)) (s : SparklineState)
      → r.max_data_points ≡ max
      → Shows max last before entries s
      → Shows max last before
          (entries ++ entry_of r)
          (track r.max_data_points r.current_value r.now s)
  unfolding track
  track-entry_of r entries s limit h = elim (Option-cases r.current_value) [
    | inl unset ↦ rw unset (rw (append-nil entries) h)
    | inr (v, set) ↦ rw set (rw limit (track-Shows v r.now entries s h))
  ]

change_reset_key-Shows :
    (max : ℕ) (key last : Option String) (before : Option Dependencies) (entries : List (ℕ × ℕ))
    (s : SparklineState)
    → Shows max last before entries s
    → Shows max
        (last_key last key)
        before
        (if is_reset last key then [] else entries)
        (change_reset_key key s)
unfolding change_reset_key
change_reset_key-Shows max none last before entries s h = h
change_reset_key-Shows max (some key) none before entries s h = rw h.key (record {
  points = sym (drop_nil (0 - max));
  begun = refl;
  key = refl;
  dependencies = h.dependencies;
})
change_reset_key-Shows max (some key) (some l) before entries s h = elim (Bool-cases (key === l)) [
  | inl same ↦ rw h.key (
      rw same (record {
        points = h.points;
        begun = h.begun;
        key = ap some (sym ((eq_iff key l).0 same));
        dependencies = h.dependencies;
      }))
  | inr other ↦ rw h.key (
      rw other (record {
        points = sym (drop_nil (0 - max));
        begun = refl;
        key = refl;
        dependencies = h.dependencies;
      }))
]

render_changed :
    (r : Render) (s : SparklineState)
    → is_changed s.effect_dependencies r ≡ true
    → render r s
      ≡ record (track r.max_data_points r.current_value r.now (change_reset_key r.reset_key s)) {
        effect_dependencies = some (dependencies r);
      }
unfolding render
render_changed r s e = rw (render, e) refl

render_still :
    (r : Render) (s : SparklineState)
    → is_changed s.effect_dependencies r ≡ false
    → render r s ≡ change_reset_key r.reset_key s
unfolding render
render_still r s e = rw (render, e) refl

is_changed-differs :
    (before : Option Dependencies) (r : Render) → is_changed before r ≡ differs before r
is_changed-differs none r = refl
is_changed-differs (some d) r = ground arith

same_value-eq : (m n : Option ℕ) → same_value m n ≡ true → m ≡ n
same_value-eq none none h = refl
same_value-eq none (some n) h = absurd (cc h)
same_value-eq (some m) none h = absurd (cc h)
same_value-eq (some m) (some n) h = let e : m ≡ n = ground arith in ap some e

is_changed-false :
    (before : Option Dependencies) (r : Render)
    → is_changed before r ≡ false
    → before ≡ some (dependencies r)
is_changed-false none r h = absurd (cc h)
is_changed-false (some d) r h =
    let value = same_value-eq d.current_value r.current_value (ground arith) in
    let time = same_value-eq d.last_refresh_time r.last_refresh_time (ground arith) in
    let limit : d.max_data_points ≡ r.max_data_points = ground arith in
    λ i.
      some
        (record { current_value = value i; last_refresh_time = time i; max_data_points = limit i })

render-Shows :
    (max : ℕ) (r : Render) (last : Option String) (before : Option Dependencies)
    (entries : List (ℕ × ℕ)) (s : SparklineState)
    → 2 ≤ max
    → r.max_data_points ≡ max
    → Shows max last before entries s
    → let kept = if is_reset last r.reset_key then [] else entries in
      Shows max
        (last_key last r.reset_key)
        (some (dependencies r))
        (if differs before r then kept ++ entry_of r else kept)
        (render r s)
unfolding render
render-Shows max r last before entries s two limit h =
    let kept = if is_reset last r.reset_key then [] else entries in
    let reset = change_reset_key-Shows max r.reset_key last before entries s h in
    elim (Bool-cases (differs before r)) [
      | inl changed ↦
          let changed_here =
            ap (λ d. is_changed d r) h.dependencies ∙ is_changed-differs before r ∙ changed in
          let tracked =
            track-entry_of max two (last_key last r.reset_key) before r kept
              (change_reset_key r.reset_key s) limit reset in
          rw changed (
            subst
              (Shows max (last_key last r.reset_key) (some (dependencies r)) (kept ++ entry_of r))
              (sym (render_changed r s changed_here))
              (record {
                points = tracked.points;
                begun = tracked.begun;
                key = tracked.key;
                dependencies = refl;
              }))
      | inr still ↦
          let still_here =
            ap (λ d. is_changed d r) h.dependencies ∙ is_changed-differs before r ∙ still in
          rw still (
            subst (Shows max (last_key last r.reset_key) (some (dependencies r)) kept)
              (sym (render_still r s still_here))
              (record {
                points = reset.points;
                begun = reset.begun;
                key = reset.key;
                dependencies =
                    reset.dependencies
                    ∙ is_changed-false before r (is_changed-differs before r ∙ still);
              }))
    ]

render_each-added :
    (max : ℕ) (rs : List Render) (last : Option String) (before : Option Dependencies)
    (entries : List (ℕ × ℕ)) (s : SparklineState)
    → 2 ≤ max
    → All (λ (r : Render). r.max_data_points ≡ max) rs
    → Shows max last before entries s
    → (render_each rs s).points ≡ last_of max (all_points (added last before entries rs))
unfolding render_each added
render_each-added max [] last before entries s two same h = h.points
render_each-added max (r ∷ rs) last before entries s two same h =
    render_each-added max rs _ _ _ (render r s) two same.1
      (render-Shows max r last before entries s two same.0 h)

-- With a limit of at least two points that stays the same, the sparkline of a mounted hook shows after
-- any renders the latest points up to the limit of the baseline and the values that were added since the
-- last reset: a render adds its value, if it has one, in the first render and where the value or the time
-- of the refresh is not that of the render before, so a refresh and a value that comes in a render after
-- it add a point each; a reset alone adds none.
pub render_each-all_points :
    (max : ℕ) (key : Option String) (rs : List Render)
    → 2 ≤ max
    → All (λ (r : Render). r.max_data_points ≡ max) rs
    → (render_each rs (mounted key)).points ≡ last_of max (all_points (added key none [] rs))
render_each-all_points max key rs two same =
    render_each-added max rs key none [] (mounted key) two same
      (record { points = sym (drop_nil (0 - max)); begun = refl; key = refl; dependencies = refl })
