-- ===== src/Tests/Store.antt =====
-- Runs of the store of the shard view.
use secan.Base.{ℕ, ◌≡◌, refl, ◌↔◌, some, [], ◌∷◌, get_elem?}
use secan.Base.Dict.{get}
use secan.Api.{NodeWithShards}
use secan.Store.{
  initial_state, calculate_valid_destinations, stop, perform, existing_timer, start_polling,
}
use secan.Store.Destinations.{IsDestination, calculate_valid_destinations_iff}
use secan.Store.Polling.{World, act, begin, begins, acts, Reach, here, next, IsTidy, Reach-IsTidy}
use secan.Tests.Data.{lost, full_alpha, empty_beta}

calculate_valid_destinations_iff_example :
    (get "b1" (calculate_valid_destinations lost (full_alpha ∷ empty_beta ∷ []))
      ≡ some (record lost { node = some "b1"; state = "STARTED" }))
    ↔ ((record lost { node = some "b1"; state = "STARTED" }
          ≡ record lost { node = some "b1"; state = "STARTED" })
        × (i : ℕ) × (node : NodeWithShards) × (get_elem? (full_alpha ∷ empty_beta ∷ []) i
            ≡ some node)
        × (node.id ≡ "b1")
        × IsDestination lost node)
calculate_valid_destinations_iff_example =
    calculate_valid_destinations_iff lost (full_alpha ∷ empty_beta ∷ []) "b1"
      (record lost { node = some "b1"; state = "STARTED" })

abbrev idle : World
idle = record { store = initial_state; live = [] }

idle-IsTidy : IsTidy idle
unfolding existing_timer
idle-IsTidy = record { timers = refl; flag = refl }

-- Two polls, of which the second replaces the first, and a stop.
polls_and_stop : Reach idle (act stop (begin 8 200 (begin 7 100 idle)))
unfolding perform start_polling existing_timer
polls_and_stop = next (next (next here (begins 7 100 refl)) (begins 8 200 refl)) (acts stop refl)

Reach-IsTidy_example : IsTidy (act stop (begin 8 200 (begin 7 100 idle)))
Reach-IsTidy_example = Reach-IsTidy idle-IsTidy polls_and_stop
