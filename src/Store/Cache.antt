-- ===== src/Store/Cache.antt =====
-- The cache of the grid's data and its time to live.
use secan.Base.{
  ℕ, ◌+◌, ◌≡◌, refl, none, some, List, [], ◌∷◌, Bool, true, false, arith, ltb, is_some,
  if◌then◌else◌, ◌≢◌, All, ◌∙◌,
}
use secan.Api.{ShardInfo, NodeWithShards, IndexMetadata}
use secan.Store.{
  ShardGridState, Action, initial_state, set_cache_data, get_cached_data, is_cache_valid,
  timestamp_is_fresh, invalidate_cache, perform, run, cache, invalidate, set_cache_ttl, reset,
  enter_mode, exit_mode, destinations, start, stop, track, untrack, enter_relocation_mode,
  exit_relocation_mode, calculate_destinations, start_polling, stop_polling, add_relocating_shard,
  remove_relocating_shard,
}

-- Data and timestamp are cached together.
abbrev Paired : ShardGridState → Type 0
Paired s = is_some s.cached_data ≡ is_some s.cache_timestamp

perform-Paired : (a : Action) (s : ShardGridState) → Paired s → Paired (perform a s).0
unfolding perform set_cache_data invalidate_cache
perform-Paired (cache nodes indices shards now) s h = refl
perform-Paired invalidate s h = refl
perform-Paired reset s h = refl
perform-Paired (enter_mode shard) s h = unfold enter_relocation_mode in h
perform-Paired exit_mode s h = unfold exit_relocation_mode in h
perform-Paired (destinations shard nodes) s h = unfold calculate_destinations in h
perform-Paired (start id now) s h = unfold start_polling in h
perform-Paired stop s h = unfold stop_polling in h
perform-Paired (track shard) s h = unfold add_relocating_shard in h
perform-Paired (untrack shard) s h = unfold remove_relocating_shard in h
perform-Paired _ s h = h

run-Paired : (actions : List Action) (s : ShardGridState) → Paired s → Paired (run actions s)
unfolding run
run-Paired [] s h = h
run-Paired (a ∷ rest) s h = run-Paired rest (perform a s).0 (perform-Paired a s h)

-- After any sequence of actions the cache is reported valid at a time exactly when it then returns
-- data.
pub is_cache_valid-get_cached_data :
    (actions : List Action) (now : ℕ)
    → let s = run actions initial_state in is_cache_valid now s ≡ is_some (get_cached_data now s)
unfolding is_cache_valid get_cached_data timestamp_is_fresh
is_cache_valid-get_cached_data actions now =
    let paired = run-Paired actions initial_state refl in ground arith

-- The actions that do not write the cache.
abbrev pub keeps_cache : Action → Bool
keeps_cache (cache nodes indices shards now) = false
keeps_cache invalidate = false
keeps_cache (set_cache_ttl ttl) = false
keeps_cache reset = false
keeps_cache _ = true

abbrev SameCache : ShardGridState → ShardGridState → Type 0
SameCache s t =
    (s.cached_data ≡ t.cached_data)
    × (s.cache_timestamp ≡ t.cache_timestamp)
    × (s.cache_ttl ≡ t.cache_ttl)

perform-SameCache :
    (a : Action) (s : ShardGridState) → keeps_cache a ≡ true → SameCache (perform a s).0 s
unfolding perform enter_relocation_mode exit_relocation_mode calculate_destinations start_polling
    stop_polling add_relocating_shard remove_relocating_shard
perform-SameCache (cache nodes indices shards now) s h = cc
perform-SameCache invalidate s h = cc
perform-SameCache (set_cache_ttl ttl) s h = cc
perform-SameCache reset s h = cc
perform-SameCache _ s h = (refl, refl, refl)

run-SameCache :
    (actions : List Action) (s : ShardGridState)
    → All (λ a. keeps_cache a ≡ true) actions
    → SameCache (run actions s) s
unfolding run
run-SameCache [] s h = (refl, refl, refl)
run-SameCache (a ∷ rest) s h =
    let (data', stamp, ttl) = run-SameCache rest (perform a s).0 h.1 in
    let (data″, stamp', ttl') = perform-SameCache a s h.0 in
    (data' ∙ data″, stamp ∙ stamp', ttl ∙ ttl')

-- Data cached at a nonzero time is returned, whatever actions follow that do not write the cache,
-- as long as less than the time to live has passed, and nothing is returned from then on.
pub get_cached_data-set_cache_data :
    (nodes : List NodeWithShards) (indices : List IndexMetadata) (shards : List ShardInfo)
    (t now : ℕ) (s : ShardGridState) (actions : List Action)
    → t ≢ 0
    → All (λ a. keeps_cache a ≡ true) actions
    → get_cached_data now (run actions (set_cache_data nodes indices shards t s)) ≡ (
        if ltb now (s.cache_ttl + t)
        then some (record { nodes = nodes; indices = indices; unassigned_shards = shards })
        else none)
unfolding get_cached_data set_cache_data timestamp_is_fresh
get_cached_data-set_cache_data nodes indices shards t now s actions h keep =
    let (cached, stamp, ttl) =
      run-SameCache actions (set_cache_data nodes indices shards t s) keep in
    rw (cached, get_cached_data) (rw (stamp, ttl) (ground arith))
