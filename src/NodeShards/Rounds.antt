-- ===== src/NodeShards/Rounds.antt =====
-- The rounds that a loader needs to end.
use secan.Base.{
  ℕ, zero, suc, ◌<◌, ◌==◌, ◌≡◌, refl, sym, ap, ◌∙◌, inl, inr, ◌⊎◌, String, List, [], ◌∷◌, ◌++◌,
  true, false, not, ◌||◌, ◌===◌, Bool-cases, take, drop, length, length-drop, arith, eq_iff, subst,
  All,
}
use secan.NodeShards.{
  Answer, Loader, System, Event, answers, goes_on, next_batch, take_answer, perform, run, is_empty,
  set_loader, remove_one, waits_for, is_aborted,
}
use secan.NodeShards.Loading.{IsQuiet}

All-append : {A : Type 0} (P : A → Type 0) (xs ys : List A) → All P xs → All P ys → All P (xs ++ ys)
All-append P [] ys h k = k
All-append P (x ∷ xs) ys h k = (h.0, All-append P xs ys h.1 k)

run-append : (es es2 : List Event) (s : System) → run (es ++ es2) s ≡ run es2 (run es s)
unfolding run
run-append [] es2 s = refl
run-append (e ∷ es) es2 s = run-append es es2 (perform e s)

pub loader_here : (c : ℕ) (l : Loader) (loaders : ℕ → Loader) → set_loader c l loaders c ≡ l
loader_here c l loaders = let same : (c == c) ≡ true = ground arith in rw same refl

module _ (server : String → Answer) (c : ℕ) where
  -- The answers for some nodes, one after the other.
  unfoldable pub replies : List String → List Event
  replies [] = []
  replies (id ∷ ids) = answers c id (server id) ∷ replies ids

  -- What a loader waits for arrives, and it goes on; so often, or until it has ended.
  unfoldable pub goes_on_with : ℕ → System → List Event
  unfolding replies run
  goes_on_with zero s = []
  goes_on_with (suc rounds) s = elim (s.loaders c).running [
    | false ↦ []
    | true ↦
        let round = replies (s.loaders c).in_flight ++ goes_on c ∷ [] in
        round ++ goes_on_with rounds (run round s)
  ]

  replies-IsQuiet : (ids : List String) → All (IsQuiet server) (replies ids ++ goes_on c ∷ [])
  unfolding replies
  replies-IsQuiet [] = (tt, tt)
  replies-IsQuiet (id ∷ ids) = (refl, replies-IsQuiet ids)

  pub goes_on_with-IsQuiet :
      (rounds : ℕ) (s : System) → All (IsQuiet server) (goes_on_with rounds s)
  unfolding goes_on_with
  goes_on_with-IsQuiet zero s = tt
  goes_on_with-IsQuiet (suc rounds) s = elim (Bool-cases (s.loaders c).running) [
    | inl runs ↦
        let round = replies (s.loaders c).in_flight ++ goes_on c ∷ [] in
        rw (runs, goes_on_with)
          (All-append (IsQuiet server) round (goes_on_with rounds (run round s))
            (replies-IsQuiet (s.loaders c).in_flight) (goes_on_with-IsQuiet rounds (run round s)))
    | inr ended ↦ rw (ended, goes_on_with) tt
  ]

  remove_one_first : (id : String) (ids : List String) → remove_one id (id ∷ ids) ≡ ids
  remove_one_first id ids =
      let same : (id === id) ≡ true = ground (arith, eq_iff id id) in rw same refl

  take_answer-first :
      (id : String) (ids : List String) (s : System)
      → (s.loaders c).running ≡ true
      → (s.loaders c).in_flight ≡ id ∷ ids
      → (take_answer c id (server id) s).loaders c ≡ record (s.loaders c) { in_flight = ids }
  unfolding take_answer
  take_answer-first id ids s runs e =
      let waits : waits_for c id s ≡ true = rw (runs, e) (ground (arith, eq_iff id id)) in
      rw (waits, take_answer)
        (loader_here c _ s.loaders
          ∙ ap (λ xs. record (s.loaders c) { in_flight = xs })
              (ap (remove_one id) e ∙ remove_one_first id ids))

  -- The answers for all that a loader waits for leave it nothing to wait for.
  run-replies :
      (ids : List String) (s : System)
      → (s.loaders c).running ≡ true
      → (s.loaders c).in_flight ≡ ids
      → (run (replies ids) s).loaders c ≡ record (s.loaders c) { in_flight = [] }
  unfolding run replies
  run-replies [] s runs e = ap (λ xs. record (s.loaders c) { in_flight = xs }) e
  run-replies (id ∷ ids) s runs e =
      let first = take_answer-first id ids s runs e in
      run-replies ids (take_answer c id (server id) s) (ap (λ (l : Loader). l.running) first ∙ runs)
        (ap (λ (l : Loader). l.in_flight) first)
      ∙ ap (λ (l : Loader). record l { in_flight = [] }) first

  shorter :
      (n : ℕ) (xs : List String) → 0 < n → is_empty xs ≡ false → length (drop n xs) < length xs
  shorter n [] p h = absurd (cc h)
  shorter n (x ∷ xs) p h = omega (arith, length-drop n (x ∷ xs))

  -- A loader that waits for nothing ends or has less to load.
  next_batch-to_load :
      (s : System)
      → (s.loaders c).in_flight ≡ []
      → (s.loaders c).running ≡ true
      → 0 < (s.loaders c).batch_size
      → (((next_batch c s).loaders c).running ≡ false)
        ⊎ ((0 < ((next_batch c s).loaders c).batch_size)
            × (length ((next_batch c s).loaders c).to_load < length (s.loaders c).to_load))
  unfolding next_batch
  next_batch-to_load s none_waits runs sized =
      let l = s.loaders c in
      let ready : (not l.running || not (is_empty l.in_flight)) ≡ false =
        rw (runs, none_waits) refl in
      elim (Bool-cases (is_empty l.to_load || is_aborted s.hook)) [
        | inl ends ↦
            rw (ready, next_batch)
              (rw ends (inl (ap (λ (l : Loader). l.running) (loader_here c _ s.loaders))))
        | inr more ↦
            let here =
              loader_here c
                (record l {
                  in_flight = take l.batch_size l.to_load;
                  to_load = drop l.batch_size l.to_load;
                })
                s.loaders in
            rw (ready, next_batch)
              (rw more (
                inr (
                  subst (λ (l : Loader). 0 < l.batch_size) (sym here) sized,
                  subst (λ (k : Loader). length k.to_load < length l.to_load) (sym here)
                      (shorter l.batch_size l.to_load sized (ground arith)),
                )))
      ]

  ended_already :
      (rounds : ℕ) (s : System)
      → (s.loaders c).running ≡ false
      → ((run (goes_on_with rounds s) s).loaders c).running ≡ false
  unfolding goes_on_with
  ended_already zero s ended = unfold run in ended
  ended_already (suc rounds) s ended = rw (ended, goes_on_with) (unfold run in ended)

  -- More rounds than it has nodes to load end a loader.
  pub run-goes_on_with :
      (rounds : ℕ) (s : System)
      → 0 < (s.loaders c).batch_size
      → length (s.loaders c).to_load < rounds
      → ((run (goes_on_with rounds s) s).loaders c).running ≡ false
  unfolding goes_on_with
  run-goes_on_with zero s sized enough = absurd (omega arith)
  run-goes_on_with (suc rounds) s sized enough = elim (Bool-cases (s.loaders c).running) [
    | inr ended ↦ ended_already (suc rounds) s ended
    | inl runs ↦
        let asked = (s.loaders c).in_flight in
        let answered = run (replies asked) s in
        let round = replies asked ++ goes_on c ∷ [] in
        let after = run-replies asked s runs refl in
        let one : run round s ≡ next_batch c answered =
          run-append (replies asked) (goes_on c ∷ []) s ∙ unfold run perform in refl in
        let left = ap (λ (l : Loader). length l.to_load) after in
        rw (runs, goes_on_with)
          (rw (run-append round (goes_on_with rounds (run round s)) s) (
            rw one
              (elim (next_batch-to_load answered (ap (λ (l : Loader). l.in_flight) after)
                (ap (λ (l : Loader). l.running) after ∙ runs)
                (subst (λ n. 0 < n) (sym (ap (λ (l : Loader). l.batch_size) after)) sized)) [
                  | inl ended ↦ ended_already rounds (next_batch c answered) ended
                  | inr (sized_on, less) ↦
                      run-goes_on_with rounds (next_batch c answered) sized_on
                        (omega (arith, less, left))
                ])))
  ]
