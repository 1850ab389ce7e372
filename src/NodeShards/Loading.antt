-- ===== src/NodeShards/Loading.antt =====
-- What the steps of the loaders keep while no effect runs and the view stays open.
use secan.Base.{
  ℕ, zero, suc, ◌<◌, ◌==◌, ◌≡◌, refl, sym, ap, ◌∙◌, ◌⊎◌, inl, inr, String, some, List, [], ◌∷◌,
  Bool, true, false, ◌||◌, ◌===◌, Bool-cases, includes, take, drop, arith, eq_iff, subst,
}
use secan.Base.Dict.{get, put, get-put}
use secan.NodeShards.{
  NodeShardsState, Answer, Loader, System, Event, reloads, answers, goes_on, closes, is_aborted,
  load_of, receive, finish, take_answer, remove_one, waits_for, set_loader, is_empty,
}

pub receive-is_aborted :
    (id : String) (answer : Answer) (s : NodeShardsState)
    → is_aborted s ≡ false
    → (is_aborted (receive id answer s) ≡ false)
      × ((receive id answer s).node_shards ≡ put id (load_of answer) s.node_shards)
      × ((receive id answer s).is_complete ≡ s.is_complete)
      × ((receive id answer s).is_initial_loading ≡ s.is_initial_loading)
unfolding receive
receive-is_aborted id answer s h = rw (h, receive) (unfold is_aborted in h, refl, refl, refl)

pub finish-is_complete :
    (s : NodeShardsState)
    → is_aborted s ≡ false
    → (is_aborted (finish s) ≡ false)
      × ((finish s).node_shards ≡ s.node_shards)
      × ((finish s).is_complete ≡ true)
      × ((finish s).is_initial_loading ≡ false)
unfolding finish
finish-is_complete s h = rw (h, finish) (unfold is_aborted in h, refl, refl, refl)

-- What holds of a loader that is set, and of the one that stood there.
pub set_loader-at :
    (P : Loader → Type 0) (c d : ℕ) (l : Loader) (loaders : ℕ → Loader)
    → (c ≡ d → P l)
    → P (loaders c)
    → P (set_loader d l loaders c)
set_loader-at P c d l loaders here elsewhere = elim (Bool-cases (c == d)) [
  | inl same ↦ let equal : c ≡ d = ground arith in rw same (here equal)
  | inr other ↦ rw other elsewhere
]

-- Whether a loader still has to ask for a node or waits for its answer.
abbrev pub is_open : Loader → String → Bool
is_open l k = includes l.in_flight k || includes l.to_load k

pub take-drop-includes :
    (n : ℕ) (xs : List String) (k : String)
    → (includes (take n xs) k || includes (drop n xs) k) ≡ includes xs k
take-drop-includes zero xs k = refl
take-drop-includes (suc n) [] k = refl
take-drop-includes (suc n) (x ∷ xs) k = ground (arith, take-drop-includes n xs k)

remove_one-includes :
    (id : String) (xs : List String) (k : String)
    → (id === k) ≡ false
    → includes (remove_one id xs) k ≡ includes xs k
remove_one-includes id [] k other = refl
remove_one-includes id (x ∷ xs) k other = elim (Bool-cases (x === id)) [
  | inl same ↦ rw same (ground (arith, eq_iff x id, other))
  | inr differs ↦ rw differs (ap (λ b. x === k || b) (remove_one-includes id xs k other))
]

pub is_empty-includes : (xs : List String) (k : String) → is_empty xs ≡ true → includes xs k ≡ false
is_empty-includes [] k h = refl
is_empty-includes (x ∷ xs) k h = absurd (cc h)

-- An event that is neither a run of the effect nor the end of the view, and whose answer, if it is one,
-- is that of the server.
abbrev pub IsQuiet : (String → Answer) → Event → Type 0
IsQuiet server (reloads ready batch_size ids) = ⊥
IsQuiet server (answers c id answer) = answer ≡ server id
IsQuiet server (goes_on c) = Unit
IsQuiet server closes = ⊥

-- A loader that has ended leaves nothing open and the loading complete.
abbrev pub EndsWell : NodeShardsState → Loader → Type 0
EndsWell h l =
    l.running ≡ false
    → (h.is_complete ≡ true) × (h.is_initial_loading ≡ false) × ((k : String) → is_open l k ≡ false)

-- Every node has its answer or is open, and the loader ends well.
module _ (server : String → Answer) (c : ℕ) (ids : List String) where
  pub record IsLoading (s : System) : Type 0 where
    pub going : is_aborted s.hook ≡ false
    pub sized : 0 < (s.loaders c).batch_size
    pub held :
        (k : String)
        → includes ids k ≡ true
        → (get k s.hook.node_shards ≡ some (load_of (server k))) ⊎ (is_open (s.loaders c) k ≡ true)
    pub ended :
        (s.loaders c).running ≡ false
        → (s.hook.is_complete ≡ true)
          × (s.hook.is_initial_loading ≡ false)
          × ((k : String) → is_open (s.loaders c) k ≡ false)

  open_after :
      (d : ℕ) (id k : String) (s : System)
      → (id === k) ≡ false
      → is_open (s.loaders c) k ≡ true
      → is_open
          (set_loader d
            (record (s.loaders d) { in_flight = remove_one id (s.loaders d).in_flight })
            s.loaders
            c)
          k
        ≡ true
  open_after d id k s other waits =
      set_loader-at (λ l. is_open l k ≡ true) c d _ s.loaders
        (λ same.
          ap (λ b. b || includes (s.loaders d).to_load k)
            (remove_one-includes id (s.loaders d).in_flight k other)
          ∙ ap (λ j. is_open (s.loaders j) k) (sym same)
          ∙ waits)
        waits

  receive-IsLoading :
      (d : ℕ) (id : String) (s : System)
      → IsLoading s
      → (s.loaders d).running ≡ true
      → IsLoading (record {
        hook = receive id (server id) s.hook;
        loaders =
            set_loader d
              (record (s.loaders d) { in_flight = remove_one id (s.loaders d).in_flight })
              s.loaders;
      })
  receive-IsLoading d id s i runs =
      let (going, shards, complete, first) = receive-is_aborted id (server id) s.hook i.going in
      let entry =
        λ (k : String). ap (get k) shards ∙ get-put id k (load_of (server id)) s.hook.node_shards in
      record {
        going = going;
        sized =
            set_loader-at (λ l. 0 < l.batch_size) c d _ s.loaders
              (λ same. subst (λ j. 0 < (s.loaders j).batch_size) same i.sized) i.sized;
        held = λ k listed. elim (Bool-cases (id === k)) [
          | inl here ↦
              inl (entry k ∙ rw here (ap (λ j. some (load_of (server j))) ((eq_iff id k).0 here)))
          | inr other ↦ elim (i.held k listed) [
            | inl there ↦ inl (entry k ∙ rw other there)
            | inr waits ↦ inr (open_after d id k s other waits)
          ]
        ];
        ended =
            set_loader-at (λ l. EndsWell (receive id (server id) s.hook) l) c d _ s.loaders
              (λ same stopped. absurd (cc (runs, stopped)))
              (λ stopped. let (a, b, o) = i.ended stopped in (complete ∙ a, first ∙ b, o));
      }

  pub take_answer-IsLoading :
      (d : ℕ) (id : String) (s : System) → IsLoading s → IsLoading (take_answer d id (server id) s)
  unfolding take_answer
  take_answer-IsLoading d id s i = elim (Bool-cases (waits_for d id s)) [
    | inl arrives ↦ rw (arrives, take_answer) (receive-IsLoading d id s i (ground arith))
    | inr absent ↦ rw (absent, take_answer) i
  ]
