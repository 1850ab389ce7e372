-- ===== src/History/Laws.antt =====
-- The history as the list of the latest distinct requests.
use secan.Base.{
  ℕ, zero, suc, ◌≤◌, ◌≡◌, refl, sym, ap, ◌∙◌, String, Option, none, some, List, [], ◌∷◌, ◌++◌, true,
  false, not, eq_iff, take, drop, get_elem?, find_index, length, length-take_le, All, All-take,
  keep, arith, Bool-cases, Option-cases, inl, inr,
}
use secan.History.{
  RequestHistoryItem, Request, max_history_entries, same_body, matches_request, history_item,
  replace_at, move_to_front, add_entry,
}

-- The request of an entry.
abbrev pub request_of : RequestHistoryItem → Request
request_of x = record { method = x.method; path = x.path; body = x.body; response = x.response }

-- No two entries are of one request.
abbrev pub Unique : List RequestHistoryItem → Type 0
Unique [] = Unit
Unique (x ∷ xs) = All (λ y. matches_request (request_of x) y ≡ false) xs × Unique xs

-- The entries that are not of a request.
abbrev pub others : Request → List RequestHistoryItem → List RequestHistoryItem
others r = keep (λ x. not (matches_request r x))

-- The history with no limit, of requests and times listed with the latest first.
abbrev pub recent : List (Request × ℕ) → List RequestHistoryItem
recent [] = []
recent ((r, now) ∷ older) = history_item r now ∷ others r (recent older)

-- The history after the requests, listed with the latest first.
pub history_after : List (Request × ℕ) → List RequestHistoryItem
history_after [] = []
history_after ((r, now) ∷ older) = add_entry r now (history_after older)

same_body_refl : (b : Option String) → same_body b b ≡ true
same_body_refl none = refl
same_body_refl (some b) = (eq_iff b b).1 refl

same_body-eq : (a b : Option String) → same_body a b ≡ true → a ≡ b
same_body-eq none none h = refl
same_body-eq none (some b) h = cc
same_body-eq (some a) none h = cc
same_body-eq (some a) (some b) h = ap some ((eq_iff a b).0 h)

matches-key :
    (r : Request) (x : RequestHistoryItem)
    → matches_request r x ≡ true
    → (x.method ≡ r.method) × (x.path ≡ r.path) × (x.body ≡ r.body)
matches-key r x h = (
  ground (arith, eq_iff x.method r.method),
  ground (arith, eq_iff x.path r.path),
  same_body-eq x.body r.body (ground arith),
)

-- An entry of a request matches what the request matches.
matches-same :
    (r : Request) (x y : RequestHistoryItem)
    → matches_request r x ≡ true
    → matches_request (request_of x) y ≡ matches_request r y
matches-same r x y h = let (m, p, b) = matches-key r x h in rw (m, p, b)

others-All :
    (r : Request) (xs : List RequestHistoryItem)
    → All (λ y. matches_request r y ≡ false) xs
    → others r xs ≡ xs
others-All r [] h = refl
others-All r (x ∷ xs) h = rw h.0 (ap (◌∷◌ x) (others-All r xs h.1))

All-others :
    (r : Request) (P : RequestHistoryItem → Type 0) (xs : List RequestHistoryItem)
    → All P xs
    → All P (others r xs)
All-others r P [] h = tt
All-others r P (x ∷ xs) h = elim (Bool-cases (matches_request r x)) [
  | inl hit ↦ rw hit (All-others r P xs h.1)
  | inr miss ↦ rw miss (h.0, All-others r P xs h.1)
]

others-Unique : (r : Request) (xs : List RequestHistoryItem) → Unique xs → Unique (others r xs)
others-Unique r [] u = tt
others-Unique r (x ∷ xs) u = elim (Bool-cases (matches_request r x)) [
  | inl hit ↦ rw hit (others-Unique r xs u.1)
  | inr miss ↦ rw miss (All-others r _ xs u.0, others-Unique r xs u.1)
]

others-unmatched :
    (r : Request) (xs : List RequestHistoryItem)
    → All (λ y. matches_request r y ≡ false) (others r xs)
others-unmatched r [] = tt
others-unmatched r (x ∷ xs) = elim (Bool-cases (matches_request r x)) [
  | inl hit ↦ rw hit (others-unmatched r xs)
  | inr miss ↦ rw miss (miss, others-unmatched r xs)
]

take-Unique : (n : ℕ) (xs : List RequestHistoryItem) → Unique xs → Unique (take n xs)
take-Unique zero xs u = tt
take-Unique (suc n) [] u = tt
take-Unique (suc n) (x ∷ xs) u = (All-take _ n xs u.0, take-Unique n xs u.1)

-- What `findIndex`, the write and the two array operations do to a history without repetitions.
updated : Request → ℕ → List RequestHistoryItem → List RequestHistoryItem
updated r now xs = elim (find_index (matches_request r) xs) [
  | none ↦ history_item r now ∷ xs
  | some i ↦ move_to_front i (replace_at i (history_item r now) xs)
]

hit-rest :
    (r : Request) (x : RequestHistoryItem) (xs : List RequestHistoryItem)
    → matches_request r x ≡ true
    → All (λ y. matches_request (request_of x) y ≡ false) xs
    → All (λ y. matches_request r y ≡ false) xs
hit-rest r x [] h u = tt
hit-rest r x (y ∷ ys) h u = (sym (matches-same r x y h) ∙ u.0, hit-rest r x ys h u.1)

missing-all :
    (r : Request) (xs : List RequestHistoryItem)
    → find_index (matches_request r) xs ≡ none
    → others r xs ≡ xs
unfolding find_index
missing-all r [] e = refl
missing-all r (x ∷ xs) e = elim (Bool-cases (matches_request r x)) [
  | inl hit ↦ ground arith
  | inr miss ↦ rw miss (ap (◌∷◌ x) (missing-all r xs (ground arith)))
]

found_at :
    (r : Request) (item : RequestHistoryItem) (i : ℕ) (xs : List RequestHistoryItem)
    → Unique xs
    → find_index (matches_request r) xs ≡ some i
    → (get_elem? (replace_at i item xs) i ≡ some item)
      × (take i (replace_at i item xs) ++ drop (suc i) (replace_at i item xs) ≡ others r xs)
unfolding find_index replace_at
found_at r item i [] u e = cc
found_at r item zero (x ∷ xs) u e = elim (Bool-cases (matches_request r x)) [
  | inl hit ↦ (refl, rw hit (sym (others-All r xs (hit-rest r x xs hit u.0))))
  | inr miss ↦ ground arith
]
found_at r item (suc i) (x ∷ xs) u e = elim (Bool-cases (matches_request r x)) [
  | inl hit ↦ ground arith
  | inr miss ↦
      let (here, rest) = found_at r item i xs u.1 (ground arith) in
      (here, rw miss (ap (◌∷◌ x) rest))
]

found-moves :
    (r : Request) (now i : ℕ) (xs : List RequestHistoryItem)
    → Unique xs
    → find_index (matches_request r) xs ≡ some i
    → move_to_front i (replace_at i (history_item r now) xs) ≡ history_item r now ∷ others r xs
unfolding move_to_front
found-moves r now i xs u e =
    let (here, rest) = found_at r (history_item r now) i xs u e in
    rw (here, move_to_front) (ap (◌∷◌ (history_item r now)) rest)

updated-others :
    (r : Request) (now : ℕ) (xs : List RequestHistoryItem)
    → Unique xs
    → updated r now xs ≡ history_item r now ∷ others r xs
unfolding updated
updated-others r now xs u = elim (Option-cases (find_index (matches_request r) xs)) [
  | inl missing ↦
      rw (missing, updated) (ap (◌∷◌ (history_item r now)) (sym (missing-all r xs missing)))
  | inr (i, found) ↦ rw (found, updated) (found-moves r now i xs u found)
]

take-take : (n : ℕ) (xs : List RequestHistoryItem) → take n (take n xs) ≡ take n xs
take-take zero xs = refl
take-take (suc n) [] = refl
take-take (suc n) (x ∷ xs) = ap (◌∷◌ x) (take-take n xs)

-- Removing one entry commutes with cutting off the end.
take-others :
    (n : ℕ) (r : Request) (xs : List RequestHistoryItem)
    → Unique xs
    → take n (others r (take (suc n) xs)) ≡ take n (others r xs)
take-others zero r xs u = refl
take-others (suc n) r [] u = refl
take-others (suc n) r (x ∷ xs) u = elim (Bool-cases (matches_request r x)) [
  | inl hit ↦
      let rest = hit-rest r x xs hit u.0 in
      rw hit (
        ap (take (suc n)) (others-All r (take (suc n) xs) (All-take _ (suc n) xs rest))
        ∙ take-take (suc n) xs
        ∙ ap (take (suc n)) (sym (others-All r xs rest)))
  | inr miss ↦ rw miss (ap (◌∷◌ x) (take-others n r xs u.1))
]

recent-Unique : (es : List (Request × ℕ)) → Unique (recent es)
recent-Unique [] = tt
recent-Unique ((r, now) ∷ older) =
    (others-unmatched r (recent older), others-Unique r (recent older) (recent-Unique older))

add_entry-updated :
    (r : Request) (now : ℕ) (xs : List RequestHistoryItem)
    → add_entry r now xs ≡ take max_history_entries (updated r now xs)
unfolding add_entry updated
add_entry-updated r now xs = refl

-- After any sequence of requests the history is the list of the latest hundred distinct requests,
-- newest first: requests agree in method, path and body, and each stands with its latest response
-- and time.
pub history_after-recent :
    (es : List (Request × ℕ)) → history_after es ≡ take max_history_entries (recent es)
unfolding history_after
history_after-recent [] = refl
history_after-recent ((r, now) ∷ older) =
    add_entry-updated r now (history_after older)
    ∙ ap (λ h. take max_history_entries (updated r now h)) (history_after-recent older)
    ∙ ap (take max_history_entries)
        (updated-others r now _ (take-Unique max_history_entries _ (recent-Unique older)))
    ∙ ap (◌∷◌ (history_item r now)) (take-others 99 r (recent older) (recent-Unique older))

-- So no request stands twice, there are at most a hundred entries, and the newest is first.
pub history_after-Unique :
    (es : List (Request × ℕ)) (r : Request) (now : ℕ)
    → let h = history_after ((r, now) ∷ es) in
      Unique h × (length h ≤ max_history_entries) × (get_elem? h 0 ≡ some (history_item r now))
history_after-Unique es r now =
    let all = (r, now) ∷ es in
    rw (history_after-recent all) (
      take-Unique max_history_entries (recent all) (recent-Unique all),
      length-take_le max_history_entries (recent all),
      refl,
    )
