-- ===== src/NodeShards/Numbering.antt =====
-- The abort controllers of frontend/src/hooks/usePerNodeShards.ts as numbers.
use secan.Base.{
  ℕ, suc, ◌<◌, ◌==◌, ◌≡◌, refl, String, Option, none, some, List, [], ◌∷◌, Bool, true, false, any,
  All, arith, ◌&&◌, ◌||◌, not, Bool-cases, inl, inr,
}
use secan.NodeShards.{
  NodeShardsState, abort_current, is_aborted, switch_off, start_loading, reload, receive, finish,
  Event, reloads, answers, goes_on, closes, perform, run, System, Answer, next_batch, run_effect,
  take_answer, waits_for, is_empty, started, initial_system,
}

-- The controllers have numbers below the next one.
pub record IsNumbered (s : NodeShardsState) : Type 0 where
  pub current : All (λ c. c < s.controllers) (elim s.controller [ none ↦ [] | some c ↦ c ∷ [] ])
  pub issued : All (λ a. a < s.controllers) s.aborted

grown : (n : ℕ) (xs : List ℕ) → All (λ a. a < n) xs → All (λ a. a < suc n) xs
grown n [] h = tt
grown n (x ∷ xs) h = (omega (arith, h.0), grown n xs h.1)

aborts-numbered :
    (o : Option ℕ) (n : ℕ) (xs : List ℕ)
    → All (λ c. c < n) (elim o [ none ↦ [] | some c ↦ c ∷ [] ])
    → All (λ a. a < n) xs
    → All (λ a. a < n) (elim o [ none ↦ xs | some c ↦ c ∷ xs ])
aborts-numbered none n xs h k = k
aborts-numbered (some c) n xs h k = (h.0, k)

abort_current-IsNumbered : (s : NodeShardsState) → IsNumbered s → IsNumbered (abort_current s)
unfolding abort_current
abort_current-IsNumbered s n = record {
  current = n.current;
  issued = aborts-numbered s.controller s.controllers s.aborted n.current n.issued;
}

start_loading-IsNumbered :
    (ids : List String) (s : NodeShardsState) → IsNumbered s → IsNumbered (start_loading ids s)
unfolding start_loading abort_current
start_loading-IsNumbered ids s n = record {
  current = (omega arith, tt);
  issued = grown _ _ (aborts-numbered s.controller s.controllers s.aborted n.current n.issued);
}

switch_off-IsNumbered : (s : NodeShardsState) → IsNumbered s → IsNumbered (switch_off s)
unfolding switch_off abort_current
switch_off-IsNumbered s n = record {
  current = n.current;
  issued = aborts-numbered s.controller s.controllers s.aborted n.current n.issued;
}

reload-IsNumbered :
    (ready : Bool) (ids : List String) (s : NodeShardsState)
    → IsNumbered s
    → IsNumbered (reload ready ids s)
unfolding reload
reload-IsNumbered ready [] s n = switch_off-IsNumbered s n
reload-IsNumbered true (id ∷ ids) s n = start_loading-IsNumbered (id ∷ ids) s n
reload-IsNumbered false (id ∷ ids) s n = switch_off-IsNumbered s n

receive-IsNumbered :
    (id : String) (answer : Answer) (s : NodeShardsState)
    → IsNumbered s
    → IsNumbered (receive id answer s)
unfolding receive
receive-IsNumbered id answer s n = elim (Bool-cases (is_aborted s)) [
  | inl stopped ↦ rw (stopped, receive) n
  | inr going ↦ rw (going, receive) (record { current = n.current; issued = n.issued })
]

finish-IsNumbered : (s : NodeShardsState) → IsNumbered s → IsNumbered (finish s)
unfolding finish
finish-IsNumbered s n = elim (Bool-cases (is_aborted s)) [
  | inl stopped ↦ rw (stopped, finish) n
  | inr going ↦ rw (going, finish) (record { current = n.current; issued = n.issued })
]

next_batch-IsNumbered : (c : ℕ) (s : System) → IsNumbered s.hook → IsNumbered (next_batch c s).hook
unfolding next_batch
next_batch-IsNumbered c s n =
    let l = s.loaders c in
    elim (Bool-cases (not l.running || not (is_empty l.in_flight))) [
      | inl waits ↦ rw waits n
      | inr ready ↦ rw ready (elim (Bool-cases (is_empty l.to_load || is_aborted s.hook)) [
        | inl ends ↦ rw ends (finish-IsNumbered s.hook n)
        | inr more ↦ rw more n
      ])
    ]

run_effect-IsNumbered :
    (ready : Bool) (batch_size : ℕ) (ids : List String) (s : System)
    → IsNumbered s.hook
    → IsNumbered (run_effect ready batch_size ids s).hook
unfolding run_effect
run_effect-IsNumbered ready n ids s h = elim (Bool-cases (ready && not (is_empty ids))) [
  | inl starts ↦ rw starts (
      next_batch-IsNumbered s.hook.controllers (started ready n ids s)
        (reload-IsNumbered ready ids s.hook h))
  | inr stays ↦ rw stays (reload-IsNumbered ready ids s.hook h)
]

perform-IsNumbered : (e : Event) (s : System) → IsNumbered s.hook → IsNumbered (perform e s).hook
unfolding perform take_answer
perform-IsNumbered (reloads ready batch_size ids) s n =
    run_effect-IsNumbered ready batch_size ids s n
perform-IsNumbered (answers c id answer) s n = elim (Bool-cases (waits_for c id s)) [
  | inl arrives ↦ rw arrives (receive-IsNumbered id answer s.hook n)
  | inr not_asked ↦ rw not_asked n
]
perform-IsNumbered (goes_on c) s n = next_batch-IsNumbered c s n
perform-IsNumbered closes s n = abort_current-IsNumbered s.hook n

pub run-IsNumbered : (es : List Event) (s : System) → IsNumbered s.hook → IsNumbered (run es s).hook
unfolding run
run-IsNumbered [] s n = n
run-IsNumbered (e ∷ es) s n = run-IsNumbered es (perform e s) (perform-IsNumbered e s n)

pub initial-IsNumbered : IsNumbered initial_system.hook
initial-IsNumbered = record { current = tt; issued = tt }

unused : (n : ℕ) (xs : List ℕ) → All (λ a. a < n) xs → any (λ a. a == n) xs ≡ false
unused n [] h = refl
unused n (x ∷ xs) h = ground (arith, h.0, unused n xs h.1)

-- A new loader is not aborted.
pub start_loading-is_aborted :
    (ids : List String) (s : NodeShardsState)
    → IsNumbered s
    → is_aborted (start_loading ids s) ≡ false
unfolding is_aborted start_loading abort_current
start_loading-is_aborted ids s n =
    unused s.controllers _ (aborts-numbered s.controller s.controllers s.aborted n.current n.issued)
