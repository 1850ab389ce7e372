-- ===== src/Sankey/Latest.antt =====
-- Only the latest fetch counts.
use secan.Base.{
  ℕ, suc, ◌==◌, ◌≤◌, ◌≡◌, refl, sym, ap, ◌∙◌, List, [], ◌∷◌, Bool, true, false, not, if◌then◌else◌,
  any, All, keep, arith, Bool-cases, inl, inr,
}
use secan.Sankey.{
  SankeyState, FetchAction, fetch, resolve, fail, initial_fetch, start_fetch, fetch_resolved,
  fetch_failed, perform, run,
}

abbrev pub without : ℕ → List ℕ → List ℕ
without id = keep (λ n. not (n == id))

issued_suc : (m : ℕ) (xs : List ℕ) → All (λ n. n ≤ m) xs → All (λ n. n ≤ suc m) xs
issued_suc m [] h = tt
issued_suc m (x ∷ xs) h = (omega (arith, h.0), issued_suc m xs h.1)

All-without : (P : ℕ → Type 0) (id : ℕ) (xs : List ℕ) → All P xs → All P (without id xs)
All-without P id [] h = tt
All-without P id (x ∷ xs) h = elim (Bool-cases (x == id)) [
  | inl same ↦ rw same (All-without P id xs h.1)
  | inr other ↦ rw other (h.0, All-without P id xs h.1)
]

any-without :
    (m id : ℕ) (xs : List ℕ)
    → any (λ n. n == m) (without id xs) ≡ (if m == id then false else any (λ n. n == m) xs)
any-without m id [] = ground arith
any-without m id (x ∷ xs) = ground (arith, any-without m id xs)

module _ {Data Error : Type 0} where
  -- An answer to the fetch with a number.
  abbrev pub answers : ℕ → FetchAction Data Error → Bool
  answers id fetch = false
  answers id (resolve n result) = id == n
  answers id (fail n err) = id == n

  abbrev pub is_fetch : FetchAction Data Error → Bool
  is_fetch fetch = true
  is_fetch _ = false

  stale :
      (a : FetchAction Data Error) (s : SankeyState Data Error)
      → is_fetch a ≡ false
      → answers s.fetch_id a ≡ false
      → perform a s ≡ s
  unfolding perform fetch_resolved fetch_failed
  stale fetch s f h = cc
  stale (resolve n result) s f h = rw h refl
  stale (fail n err) s f h = rw h refl

  perform-fetch_id :
      (a : FetchAction Data Error) (s : SankeyState Data Error)
      → is_fetch a ≡ false
      → (perform a s).fetch_id ≡ s.fetch_id
  unfolding perform fetch_resolved fetch_failed
  perform-fetch_id fetch s f = cc
  perform-fetch_id (resolve n result) s f = ground arith
  perform-fetch_id (fail n err) s f = ground arith

  run-answers :
      (es : List (FetchAction Data Error)) (s : SankeyState Data Error) (id : ℕ)
      → s.fetch_id ≡ id
      → All (λ a. is_fetch a ≡ false) es
      → run es s ≡ run (keep (answers id) es) s
  unfolding run
  run-answers [] s id e h = refl
  run-answers (a ∷ es) s id e h = elim (Bool-cases (answers id a)) [
    | inl own ↦ rw (own, run) (run-answers es (perform a s) id (perform-fetch_id a s h.0 ∙ e) h.1)
    | inr other ↦
        rw other (
          ap (run es) (stale a s h.0 (ap (λ n. answers n a) e ∙ other)) ∙ run-answers es s id e h.1)
  ]

  -- After a fetch and until the next one, the answers to older fetches make no difference, however
  -- they arrive between its own: the state is the one that its own answers give.
  pub run-fetch :
      (es : List (FetchAction Data Error)) (s : SankeyState Data Error)
      → All (λ a. is_fetch a ≡ false) es
      → run (fetch ∷ es) s ≡ run (fetch ∷ keep (answers (suc s.fetch_id)) es) s
  unfolding run perform start_fetch
  run-fetch es s h = run-answers es (start_fetch s) (suc s.fetch_id) refl h

module _ (Data Error : Type 0) where
  -- The hook beside the numbers of the requests that are under way.
  pub record Session : Type 0 where
    pub view : SankeyState Data Error
    pub pending : List ℕ

  -- A request starts, or one that is under way is answered.
  pub data Step (w : Session) : Session → Type 0 where
    fetches :
        Step w (record { view = start_fetch w.view; pending = suc w.view.fetch_id ∷ w.pending })
    resolves :
        (id : ℕ) (result : Data)
        → any (λ n. n == id) w.pending ≡ true
        → Step w (record { view = fetch_resolved id result w.view; pending = without id w.pending })
    fails :
        (id : ℕ) (err : Error)
        → any (λ n. n == id) w.pending ≡ true
        → Step w (record { view = fetch_failed id err w.view; pending = without id w.pending })

  pub data Reach (w : Session) : Session → Type 0 where
    here : Reach w w
    next : {u v : Session} → Reach w u → Step u v → Reach w v

  abbrev pub opened : Session
  opened = record { view = initial_fetch; pending = [] }

  -- The requests have numbers up to the latest, and the view loads while that one is under way.
  pub record IsLive (w : Session) : Type 0 where
    pub issued : All (λ n. n ≤ w.view.fetch_id) w.pending
    pub loads : w.view.loading ≡ any (λ n. n == w.view.fetch_id) w.pending

  settled-IsLive :
      (w : Session) (v : SankeyState Data Error) (id : ℕ)
      → v.fetch_id ≡ w.view.fetch_id
      → v.loading ≡ (if w.view.fetch_id == id then false else w.view.loading)
      → IsLive w
      → IsLive (record { view = v; pending = without id w.pending })
  settled-IsLive w v id e loading l = record {
    issued = rw e (All-without (λ n. n ≤ w.view.fetch_id) id w.pending l.issued);
    loads =
        loading
        ∙ ap (λ b. if w.view.fetch_id == id then false else b) l.loads
        ∙ rw e (sym (any-without w.view.fetch_id id w.pending));
  }

  Step-IsLive : {w v : Session} → Step w v → IsLive w → IsLive v
  unfolding start_fetch fetch_resolved fetch_failed
  Step-IsLive {w} fetches l = record {
    issued = (omega arith, issued_suc w.view.fetch_id w.pending l.issued);
    loads = ground arith;
  }
  Step-IsLive {w} (resolves id result h) l =
      settled-IsLive w (fetch_resolved id result w.view) id (ground arith) (ground arith) l
  Step-IsLive {w} (fails id err h) l =
      settled-IsLive w (fetch_failed id err w.view) id (ground arith) (ground arith) l

  -- In every session the view shows that it loads exactly while the latest request is under way.
  pub Reach-IsLive : {w : Session} → Reach opened w → IsLive w
  Reach-IsLive here = record { issued = tt; loads = refl }
  Reach-IsLive (next r st) = Step-IsLive st (Reach-IsLive r)
