-- ===== src/Refresh/Polling.antt =====
-- When and how often the queries poll, and what a reload of the page keeps.
use secan.Base.{
  ℕ, ◌+◌, ◌*◌, ◌≤◌, ◌≡◌, ◌≢◌, refl, sym, ap, ◌∙◌, ◌==◌, String, Option, none, some, List, [], ◌∷◌,
  Bool, true, false, ◌||◌, if◌then◌else◌, given, decimal, arith, ◌⊎◌, eq_iff,
}
use secan.Base.Decimal.{read, read-decimal}
use secan.Refresh.{
  RefreshState, RefreshAction, sets, pauses, resumes, ends, refreshes, succeeds, is_interval,
  load_interval, open_provider, calculate_cache_duration, set_interval, pause_polling,
  resume_polling, paused, refresh, refresh_ends, query_succeeds, use_refresh_interval, perform, run,
}

-- The interval that is chosen, and whether something is dragged, after a sequence of actions.
abbrev pub chosen : ℕ → List RefreshAction → ℕ
chosen n [] = n
chosen n (sets m ∷ rest) = chosen m rest
chosen n (_ ∷ rest) = chosen n rest

abbrev pub dragging : Bool → List RefreshAction → Bool
dragging b [] = b
dragging b (pauses ∷ rest) = dragging true rest
dragging b (resumes ∷ rest) = dragging false rest
dragging b (_ ∷ rest) = dragging b rest

query_succeeds-fields :
    (now : ℕ) (s : RefreshState)
    → ((query_succeeds now s).interval ≡ s.interval)
      × ((query_succeeds now s).paused_by_drag ≡ s.paused_by_drag)
      × ((query_succeeds now s).stored ≡ s.stored)
unfolding query_succeeds
query_succeeds-fields now s = ground arith

run-fields :
    (actions : List RefreshAction) (s : RefreshState)
    → ((run actions s).interval ≡ chosen s.interval actions)
      × ((run actions s).paused_by_drag ≡ dragging s.paused_by_drag actions)
unfolding run perform set_interval pause_polling resume_polling refresh refresh_ends
run-fields [] s = (refl, refl)
run-fields (sets n ∷ rest) s = run-fields rest (set_interval n s)
run-fields (pauses ∷ rest) s = run-fields rest (pause_polling s)
run-fields (resumes ∷ rest) s = run-fields rest (resume_polling s)
run-fields (ends ∷ rest) s = run-fields rest (refresh_ends s)
run-fields (refreshes scope now ∷ rest) s = run-fields rest (refresh scope now s).0
run-fields (succeeds now ∷ rest) s =
    let (interval, drag) = run-fields rest (query_succeeds now s) in
    let (same, held, _) = query_succeeds-fields now s in
    (interval ∙ ap (λ n. chosen n rest) same, drag ∙ ap (λ b. dragging b rest) held)

-- After any sequence of actions the queries poll in the interval that was chosen last, unless that
-- is off or something is dragged, and then they do not poll.
pub use_refresh_interval-run :
    (actions : List RefreshAction) (s : RefreshState)
    → use_refresh_interval (run actions s) ≡ (
        if chosen s.interval actions == 0 || dragging s.paused_by_drag actions
        then none
        else some (chosen s.interval actions))
unfolding use_refresh_interval paused
use_refresh_interval-run actions s =
    let (interval, drag) = run-fields actions s in ground (arith, interval, drag)

decimal-nonempty : (n : ℕ) → decimal n ≢ ""
decimal-nonempty n e =
    let zero : n ≡ 0 = sym (read-decimal n) ∙ ap (read 0) e ∙ unfold read in refl in
    zero_nonempty (sym (ap decimal zero) ∙ e)
  where
    zero_nonempty : decimal 0 ≢ ""
    zero_nonempty e = unfold decimal in cc e

given_nonempty : (t : String) → t ≢ "" → given (some t) ≡ some t
given_nonempty t h = ground (arith, eq_iff t "", h)

load_interval-text :
    (to_number : String → Option ℕ) (t : String) (n default_interval : ℕ)
    → t ≢ ""
    → to_number t ≡ some n
    → is_interval n ≡ true
    → load_interval to_number (some t) default_interval ≡ n
unfolding load_interval
load_interval-text to_number t n default_interval nonempty reads valid =
    rw (given_nonempty t nonempty, load_interval) (rw reads (rw valid refl))

-- A reload of the page takes up the interval that was set, if it is one of the intervals and
-- `Number` reads back its decimal numeral; the default plays no part.
pub open_provider-set_interval :
    (to_number : String → Option ℕ) (n now default_interval : ℕ) (s : RefreshState)
    → to_number (decimal n) ≡ some n
    → is_interval n ≡ true
    → (open_provider to_number (set_interval n s).stored default_interval now).interval ≡ n
unfolding open_provider set_interval
open_provider-set_interval to_number n now default_interval s reads valid =
    load_interval-text to_number (decimal n) n default_interval (decimal-nonempty n) reads valid

-- Cached data lives at least three seconds and at least half as long again as the interval; where
-- the refresh is on, it lives no longer than the larger of the two, rounded up.
pub calculate_cache_duration_bounds :
    (n : ℕ)
    → (3000 ≤ calculate_cache_duration n)
      × (n * 3 ≤ calculate_cache_duration n * 2)
      × ((n ≡ 0)
          ⊎ ((calculate_cache_duration n ≡ 3000) ⊎ (calculate_cache_duration n * 2 ≤ n * 3 + 1)))
unfolding calculate_cache_duration
calculate_cache_duration_bounds n = ground arith
