-- ===== src/Store/Polling.antt =====
-- The timers that the shard view starts, and which of them run.
use secan.Base.{
  ℕ, ◌≡◌, refl, ◌∙◌, ap, Option, none, some, List, [], ◌∷◌, Bool, true, false, arith, ◌==◌, any,
  keep, not, is_some, ◌⊎◌, inl, inr, ap₂, sym,
}
use secan.Store.{
  ShardGridState, Action, start, stop, reset, perform, existing_timer, set_cache_data,
  invalidate_cache, enter_relocation_mode, exit_relocation_mode, calculate_destinations,
  start_polling, stop_polling, add_relocating_shard, remove_relocating_shard,
}

-- The store beside the timers of the browser that run.
pub record World : Type 0 where
  pub store : ShardGridState
  pub live : List ℕ

-- `clearInterval` of each timer of a list.
abbrev pub clear : List ℕ → List ℕ → List ℕ
clear ids live = keep (λ t. not (any (λ id. id == t) ids)) live

abbrev pub act : Action → World → World
act a w = record { store = (perform a w.store).0; live = clear (perform a w.store).1 w.live }

-- The caller starts a timer, and hands its id to `startPolling`.
abbrev pub begin : ℕ → ℕ → World → World
begin id now w = act (start id now) (record w { live = id ∷ w.live })

abbrev pub is_start_or_reset : Action → Bool
is_start_or_reset (start id now) = true
is_start_or_reset reset = true
is_start_or_reset _ = false

-- What the shard view does: a new timer has an id that no running timer has.
pub data Step (w : World) : World → Type 0 where
  begins : (id now : ℕ) → any (λ t. t == id) w.live ≡ false → Step w (begin id now w)
  acts : (a : Action) → is_start_or_reset a ≡ false → Step w (act a w)

pub data Reach (w : World) : World → Type 0 where
  here : Reach w w
  next : {u v : World} → Reach w u → Step u v → Reach w v

-- The running timers are the one that the store knows.
pub record IsTidy (w : World) : Type 0 where
  pub timers : w.live ≡ existing_timer w.store.polling_interval_id
  pub flag : w.store.is_polling ≡ is_some w.store.polling_interval_id

clear_self : (o : Option ℕ) → clear (existing_timer o) (existing_timer o) ≡ []
unfolding existing_timer
clear_self none = refl
clear_self (some id) = ground arith

clear_old :
    (o : Option ℕ) (id : ℕ)
    → any (λ t. t == id) (existing_timer o) ≡ false
    → clear (existing_timer o) (id ∷ existing_timer o) ≡ id ∷ []
unfolding existing_timer
clear_old none id h = refl
clear_old (some old) id h = ground arith

clear_none : (live : List ℕ) → clear [] live ≡ live
clear_none [] = refl
clear_none (t ∷ ts) = ap (◌∷◌ t) (clear_none ts)

quiet-clear :
    (a : Action) (s : ShardGridState)
    → is_start_or_reset a ≡ false
    → ((perform a s).0.polling_interval_id ≡ s.polling_interval_id)
        × ((perform a s).0.is_polling ≡ s.is_polling)
        × ((perform a s).1 ≡ [])
      ⊎ ((perform a s).0.polling_interval_id ≡ none)
        × ((perform a s).0.is_polling ≡ false)
        × ((perform a s).1 ≡ existing_timer s.polling_interval_id)
unfolding perform set_cache_data invalidate_cache enter_relocation_mode exit_relocation_mode
    calculate_destinations start_polling stop_polling add_relocating_shard remove_relocating_shard
quiet-clear stop s h = inr (refl, refl, refl)
quiet-clear (start id now) s h = cc
quiet-clear reset s h = cc
quiet-clear _ s h = inl (refl, refl, refl)

begin-IsTidy :
    (w : World) (id now : ℕ)
    → any (λ t. t == id) w.live ≡ false
    → IsTidy w
    → IsTidy (begin id now w)
unfolding perform start_polling existing_timer
begin-IsTidy w id now fresh t = record {
  timers = rw t.timers (clear_old w.store.polling_interval_id id (rw t.timers at fresh));
  flag = refl;
}

act-IsTidy : (w : World) (a : Action) → is_start_or_reset a ≡ false → IsTidy w → IsTidy (act a w)
act-IsTidy w a h t = elim (quiet-clear a w.store h) [
  | inl (id, flag, stopped) ↦ record {
    timers =
        ap (λ c. clear c w.live) stopped
        ∙ clear_none w.live
        ∙ t.timers
        ∙ ap existing_timer (sym id);
    flag = flag ∙ t.flag ∙ ap is_some (sym id);
  }
  | inr (id, flag, stopped) ↦ record {
    timers =
        ap₂ clear stopped t.timers
        ∙ clear_self w.store.polling_interval_id
        ∙ unfold existing_timer in ap existing_timer (sym id);
    flag = flag ∙ ap is_some (sym id);
  }
]

Step-IsTidy : {w v : World} → Step w v → IsTidy w → IsTidy v
Step-IsTidy {w} (begins id now fresh) t = begin-IsTidy w id now fresh t
Step-IsTidy {w} (acts a h) t = act-IsTidy w a h t

-- However often the view starts polling, and whatever else it does without resetting the store, the
-- timers that run are exactly the one that the store knows: none, or one while it polls.
pub Reach-IsTidy : {w v : World} → IsTidy w → Reach w v → IsTidy v
Reach-IsTidy t here = t
Reach-IsTidy t (next r st) = Step-IsTidy st (Reach-IsTidy t r)

-- A reset while a timer runs loses it: the timer goes on, the store no longer knows it, and a later
-- stop does not end it.
pub reset-leaks :
    (w : World) (id : ℕ)
    → IsTidy w
    → w.store.polling_interval_id ≡ some id
    → let v = act stop (act reset w) in (v.store.polling_interval_id ≡ none) × (v.live ≡ id ∷ [])
unfolding perform stop_polling existing_timer
reset-leaks w id t e =
    (refl, clear_none (clear [] w.live) ∙ clear_none w.live ∙ t.timers ∙ ap existing_timer e)
