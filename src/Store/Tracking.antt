-- ===== src/Store/Tracking.antt =====
-- The set of shards whose relocation is followed.
use mathlib.Core.Bool.{beq}
use secan.Base.{
  ◌≡◌, refl, ap, ◌∙◌, ◌↔◌, Bool, false, arith, ◌+++◌, decimal, show_bool, eq_iff, not, ◌===◌, ◌||◌,
  ◌&&◌, ◌==◌, Bool-cases, inl, inr, sym, List, [], ◌∷◌,
}
use secan.Base.Keys.{Distinct, add-Distinct, delete-Distinct, includes-add, includes-delete}
use secan.Base.Decimal.{
  split_last, decimal-Without, decimal-injective, show_bool-Without, show_bool-injective,
}
use secan.Api.{ShardInfo}
use secan.Store.{
  ShardGridState, get_shard_key, add_relocating_shard, remove_relocating_shard, is_shard_relocating,
  Action, track, untrack, reset, perform, run, initial_state, set_cache_data, invalidate_cache,
  enter_relocation_mode, exit_relocation_mode, calculate_destinations, start_polling, stop_polling,
}

-- What the key of a shard says of it.
abbrev pub SameShard : ShardInfo → ShardInfo → Type 0
SameShard s t = (s.index ≡ t.index) × (s.shard ≡ t.shard) × (s.primary ≡ t.primary)

-- Two shards have one key exactly when they agree in index name, shard number and primary flag,
-- whatever characters the index names hold.
pub get_shard_key_iff : (s t : ShardInfo) → (get_shard_key s ≡ get_shard_key t) ↔ SameShard s t
unfolding get_shard_key
get_shard_key_iff s t = (
  λ e.
      let (front, flag) =
        split_last ":" (s.index +++ ":" +++ decimal s.shard) (show_bool s.primary)
          (t.index +++ ":" +++ decimal t.shard) (show_bool t.primary) (show_bool-Without s.primary)
          (show_bool-Without t.primary) e in
      let (index, number) =
        split_last ":" s.index (decimal s.shard) t.index (decimal t.shard)
          (decimal-Without b':' s.shard (omega arith)) (decimal-Without b':' t.shard (omega arith))
          front in
      (index, decimal-injective _ _ number, show_bool-injective _ _ flag),
  λ (index, number, flag). cc (index, number, flag),
)

-- Whether two shards are one for the program.
abbrev pub same_shard : ShardInfo → ShardInfo → Bool
same_shard s t = s.index === t.index && s.shard == t.shard && beq s.primary t.primary

same_shard-key : (s t : ShardInfo) → (get_shard_key s === get_shard_key t) ≡ same_shard s t
same_shard-key s t = elim (Bool-cases (get_shard_key s === get_shard_key t)) [
  | inl same ↦
      let (index, number, flag) = (get_shard_key_iff s t).0 ((eq_iff _ _).0 same) in
      rw same (ground (arith, eq_iff s.index t.index))
  | inr other ↦ elim (Bool-cases (same_shard s t)) [
    | inl agree ↦ cc (
        (eq_iff _ _).1 (
          (get_shard_key_iff s t).1
            (ground (arith, eq_iff s.index t.index), ground arith, ground arith)))
    | inr differ ↦ other ∙ sym differ
  ]
]

-- The latest word on a shard in a sequence of actions.
abbrev pub followed : ShardInfo → Bool → List Action → Bool
followed t before [] = before
followed t before (track s ∷ rest) = followed t (same_shard s t || before) rest
followed t before (untrack s ∷ rest) = followed t (not (same_shard s t) && before) rest
followed t before (reset ∷ rest) = followed t false rest
followed t before (_ ∷ rest) = followed t before rest

abbrev Keyed : ShardGridState → Type 0
Keyed s = Distinct s.relocating_shards

perform-Keyed : (a : Action) (s : ShardGridState) → Keyed s → Keyed (perform a s).0
unfolding perform set_cache_data invalidate_cache enter_relocation_mode exit_relocation_mode
    calculate_destinations start_polling stop_polling add_relocating_shard remove_relocating_shard
perform-Keyed (track t) s h = add-Distinct (get_shard_key t) s.relocating_shards h
perform-Keyed (untrack t) s h = delete-Distinct (get_shard_key t) s.relocating_shards h
perform-Keyed reset s h = tt
perform-Keyed _ s h = h

perform-followed :
    (a : Action) (t : ShardInfo) (s : ShardGridState)
    → Keyed s
    → is_shard_relocating t (perform a s).0 ≡ followed t (is_shard_relocating t s) (a ∷ [])
unfolding perform set_cache_data invalidate_cache enter_relocation_mode exit_relocation_mode
    calculate_destinations start_polling stop_polling add_relocating_shard remove_relocating_shard
    is_shard_relocating
perform-followed (track s) t g h =
    rw (← same_shard-key s t) (includes-add (get_shard_key s) (get_shard_key t) g.relocating_shards)
perform-followed (untrack s) t g h =
    rw (← same_shard-key s t)
      (includes-delete (get_shard_key s) (get_shard_key t) g.relocating_shards h)
perform-followed reset t g h = refl
perform-followed _ t g h = refl

followed-cons :
    (a : Action) (t : ShardInfo) (before : Bool) (rest : List Action)
    → followed t (followed t before (a ∷ [])) rest ≡ followed t before (a ∷ rest)
followed-cons (track s) t before rest = refl
followed-cons _ t before rest = refl

run-followed :
    (actions : List Action) (t : ShardInfo) (s : ShardGridState)
    → Keyed s
    → is_shard_relocating t (run actions s) ≡ followed t (is_shard_relocating t s) actions
unfolding run
run-followed [] t s h = refl
run-followed (a ∷ rest) t s h =
    run-followed rest t (perform a s).0 (perform-Keyed a s h)
    ∙ ap (λ b. followed t b rest) (perform-followed a t s h)
    ∙ followed-cons a t (is_shard_relocating t s) rest

-- After any sequence of actions a shard is reported as relocating exactly when the latest action
-- that adds or removes it (or resets the store) adds it; shards are told apart by index name, shard
-- number and primary flag.
pub is_shard_relocating-run :
    (actions : List Action) (t : ShardInfo)
    → is_shard_relocating t (run actions initial_state) ≡ followed t false actions
is_shard_relocating-run actions t =
    run-followed actions t initial_state tt ∙ ap (λ b. followed t b actions) (fresh t)
  where
    fresh : (t : ShardInfo) → is_shard_relocating t initial_state ≡ false
    fresh t = unfold is_shard_relocating in refl
