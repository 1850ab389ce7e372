-- ===== src/NodeShards/Steps.antt =====
-- What a loader that goes on keeps, and what every quiet event does.
use secan.Base.{
  ℕ, ◌<◌, ◌≡◌, sym, ap, ◌∙◌, inl, inr, String, List, [], ◌∷◌, true, false, not, ◌||◌, Bool-cases,
  includes, take, drop, arith, subst, All,
}
use secan.Base.Dict.{get}
use secan.NodeShards.{
  Answer, System, Event, reloads, answers, goes_on, closes, is_aborted, finish, next_batch,
  take_answer, set_loader, is_empty, perform, run,
}
use secan.NodeShards.Loading.{
  IsLoading, IsQuiet, EndsWell, is_open, finish-is_complete, set_loader-at, take-drop-includes,
  is_empty-includes, take_answer-IsLoading,
}

module _ (server : String → Answer) (c : ℕ) (ids : List String) where
  finish-IsLoading :
      (d : ℕ) (s : System)
      → IsLoading server c ids s
      → is_empty (s.loaders d).in_flight ≡ true
      → is_empty (s.loaders d).to_load ≡ true
      → IsLoading server c ids (record {
        hook = finish s.hook;
        loaders = set_loader d (record (s.loaders d) { running = false }) s.loaders;
      })
  finish-IsLoading d s i none_waits none_left =
      let (going, shards, complete, first) = finish-is_complete s.hook i.going in
      record {
        going = going;
        sized =
            set_loader-at (λ l. 0 < l.batch_size) c d _ s.loaders
              (λ same. subst (λ j. 0 < (s.loaders j).batch_size) same i.sized) i.sized;
        held = λ k listed. elim (i.held k listed) [
          | inl there ↦ inl (ap (get k) shards ∙ there)
          | inr waits ↦ inr (
              set_loader-at (λ l. is_open l k ≡ true) c d _ s.loaders
                (λ same. ap (λ j. is_open (s.loaders j) k) (sym same) ∙ waits) waits)
        ];
        ended =
            set_loader-at (λ l. EndsWell (finish s.hook) l) c d _ s.loaders
              (λ same stopped. (
                complete,
                first,
                λ k. ground (
                  arith,
                  is_empty-includes (s.loaders d).in_flight k none_waits,
                  is_empty-includes (s.loaders d).to_load k none_left,
                ),
              ))
              (λ stopped. (complete, first, (i.ended stopped).2));
      }

  send-IsLoading :
      (d : ℕ) (s : System)
      → IsLoading server c ids s
      → is_empty (s.loaders d).in_flight ≡ true
      → (s.loaders d).running ≡ true
      → IsLoading server c ids (record s {
        loaders =
            set_loader d
              (record (s.loaders d) {
                in_flight = take (s.loaders d).batch_size (s.loaders d).to_load;
                to_load = drop (s.loaders d).batch_size (s.loaders d).to_load;
              })
              s.loaders;
      })
  send-IsLoading d s i none_waits runs = record {
    going = i.going;
    sized =
        set_loader-at (λ l. 0 < l.batch_size) c d _ s.loaders
          (λ same. subst (λ j. 0 < (s.loaders j).batch_size) same i.sized) i.sized;
    held = λ k listed. elim (i.held k listed) [
      | inl there ↦ inl there
      | inr waits ↦ inr (
          set_loader-at (λ l. is_open l k ≡ true) c d _ s.loaders
            (λ same.
              take-drop-includes (s.loaders d).batch_size (s.loaders d).to_load k
              ∙ ap (λ b. b || includes (s.loaders d).to_load k)
                  (sym (is_empty-includes (s.loaders d).in_flight k none_waits))
              ∙ ap (λ j. is_open (s.loaders j) k) (sym same)
              ∙ waits)
            waits)
    ];
    ended =
        set_loader-at (λ l. EndsWell s.hook l) c d _ s.loaders
          (λ same stopped. absurd (cc (runs, stopped))) i.ended;
  }

  pub next_batch-IsLoading :
      (d : ℕ) (s : System) → IsLoading server c ids s → IsLoading server c ids (next_batch d s)
  unfolding next_batch
  next_batch-IsLoading d s i =
      let l = s.loaders d in
      elim (Bool-cases (not l.running || not (is_empty l.in_flight))) [
        | inl waits ↦ rw (waits, next_batch) i
        | inr ready ↦
            let none_waits : is_empty l.in_flight ≡ true = ground arith in
            elim (Bool-cases (is_empty l.to_load || is_aborted s.hook)) [
              | inl ends ↦
                  let left : is_empty l.to_load ≡ true = ground (arith, i.going) in
                  rw (ready, next_batch) (rw ends (finish-IsLoading d s i none_waits left))
              | inr more ↦
                  rw (ready, next_batch) (rw more (send-IsLoading d s i none_waits (ground arith)))
            ]
      ]

  perform-IsLoading :
      (e : Event) (s : System)
      → IsQuiet server e
      → IsLoading server c ids s
      → IsLoading server c ids (perform e s)
  unfolding perform
  perform-IsLoading (reloads ready n node_ids) s q i = absurd q
  perform-IsLoading (answers d id answer) s q i =
      subst (λ a. IsLoading server c ids (take_answer d id a s)) (sym q)
        (take_answer-IsLoading server c ids d id s i)
  perform-IsLoading (goes_on d) s q i = next_batch-IsLoading d s i
  perform-IsLoading closes s q i = absurd q

  pub run-IsLoading :
      (es : List Event) (s : System)
      → All (IsQuiet server) es
      → IsLoading server c ids s
      → IsLoading server c ids (run es s)
  unfolding run
  run-IsLoading [] s q i = i
  run-IsLoading (e ∷ es) s q i = run-IsLoading es (perform e s) q.1 (perform-IsLoading e s q.0 i)
