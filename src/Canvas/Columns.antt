-- ===== src/Canvas/Columns.antt =====
-- frontend/src/utils/canvasLayout.ts: the assignment of nodes to the columns of the grid.
use mathlib.Core.List.{List, [], ◌∷◌, map}
use secan.Base.{
  ℕ, zero, suc, ◌+◌, ◌≤◌, ◌<◌, ◌≡◌, refl, ap, ◌∙◌, if◌then◌else◌, ltb, ◌==◌, length, arith, All,
  All-imp, Pairwise,
}
use secan.Api.{NodeInfo}
use secan.Canvas.{
  CanvasInput, card_height, estimate_group_min_width, horizontal_gap, vertical_gap, max,
}
use secan.Canvas.Grid.{
  nth, add_at, replicate, range, shortest, shortest_from, Placed, place, in_turn, by_height, widest,
  column_xs, columns_of,
}

pub length-add_at : (i d : ℕ) (xs : List ℕ) → length (add_at i d xs) ≡ length xs
length-add_at i d [] = refl
length-add_at zero d (x ∷ xs) = refl
length-add_at (suc i) d (x ∷ xs) = omega (arith, length-add_at i d xs)

pub nth-add_at_self : (i d : ℕ) (xs : List ℕ) → i < length xs → nth (add_at i d xs) i ≡ nth xs i + d
nth-add_at_self i d [] h = absurd (omega arith)
nth-add_at_self zero d (x ∷ xs) h = refl
nth-add_at_self (suc i) d (x ∷ xs) h = nth-add_at_self i d xs (omega arith)

pub nth-le-add_at : (i d j : ℕ) (xs : List ℕ) → nth xs j ≤ nth (add_at i d xs) j
nth-le-add_at i d j [] = omega arith
nth-le-add_at zero d zero (x ∷ xs) = omega arith
nth-le-add_at zero d (suc j) (x ∷ xs) = omega arith
nth-le-add_at (suc i) d zero (x ∷ xs) = omega arith
nth-le-add_at (suc i) d (suc j) (x ∷ xs) = nth-le-add_at i d j xs

pub length-replicate : (n x : ℕ) → length (replicate n x) ≡ n
length-replicate zero x = refl
length-replicate (suc n) x = omega (arith, length-replicate n x)

-- The column that is found is one of the columns.
shortest_from-lt :
    (c m v : ℕ) (hs : List ℕ) → m < c + length hs → shortest_from c m v hs < c + length hs
unfolding shortest_from
shortest_from-lt c m v [] h = h
shortest_from-lt c m v (x ∷ hs) h = omega (
  arith,
  shortest_from-lt (c + 1) (if ltb x v then c else m) (if ltb x v then x else v) hs (ground arith),
)

pub shortest-lt : (hs : List ℕ) → 0 < length hs → shortest hs < length hs
unfolding shortest
shortest-lt [] h = absurd (omega arith)
shortest-lt (x ∷ hs) h = omega (arith, shortest_from-lt 1 0 x hs (omega arith))

-- A choice of one of so many columns.
abbrev pub IsChoice : ℕ → (ℕ → List ℕ → ℕ) → Type 0
IsChoice cols choose = (i : ℕ) (hs : List ℕ) → length hs ≡ cols → choose i hs < cols

pub in_turn-IsChoice : (cols : ℕ) → 0 < cols → IsChoice cols (in_turn cols)
in_turn-IsChoice zero h i hs e = absurd (omega arith)
in_turn-IsChoice (suc n) h i hs e = grind arith

pub by_height-IsChoice : (cols : ℕ) → 0 < cols → IsChoice cols by_height
by_height-IsChoice cols h i hs e = omega (arith, shortest-lt hs (omega arith))

module _ (choose : ℕ → List ℕ → ℕ) (input : CanvasInput) where
  -- No card stands above the height of its column.
  place-below :
      (i : ℕ) (heights : List ℕ) (nodes : List NodeInfo)
      → All (λ (q : Placed). nth heights q.column ≤ q.y) (place choose input i heights nodes)
  unfolding place
  place-below i heights [] = tt
  place-below i heights (node ∷ rest) =
      let c = choose i heights in
      let d = card_height input node + vertical_gap in
      (
        omega arith,
        All-imp
            (λ (q : Placed) (h : nth (add_at c d heights) q.column ≤ q.y).
              omega (arith, nth-le-add_at c d q.column heights))
            _ (place-below (i + 1) (add_at c d heights) rest),
      )

  -- Of two cards in one column the later stands below the earlier, with the gap between them.
  abbrev pub Below : Placed → Placed → Type 0
  Below p q = p.column ≡ q.column → p.y + card_height input p.node + vertical_gap ≤ q.y

  pub place-Below :
      (cols i : ℕ) (heights : List ℕ) (nodes : List NodeInfo)
      → IsChoice cols choose
      → length heights ≡ cols
      → Pairwise Below (place choose input i heights nodes)
  unfolding place
  place-Below cols i heights [] pick len = tt
  place-Below cols i heights (node ∷ rest) pick len =
      let c = choose i heights in
      let d = card_height input node + vertical_gap in
      let inside : c < length heights = omega (arith, pick i heights len) in
      let head : Placed = record { node = node; column = c; y = nth heights c } in
      (
        All-imp {Q = Below head}
            (λ (q : Placed) (h : nth (add_at c d heights) q.column ≤ q.y) (e : c ≡ q.column).
              omega (arith, nth-add_at_self c d heights inside, ap (nth (add_at c d heights)) e))
            _ (place-below (i + 1) (add_at c d heights) rest),
        place-Below cols (i + 1) (add_at c d heights) rest pick (length-add_at c d heights ∙ len),
      )

  pub place-column :
      (cols i : ℕ) (heights : List ℕ) (nodes : List NodeInfo)
      → IsChoice cols choose
      → length heights ≡ cols
      → All (λ (q : Placed). q.column < cols) (place choose input i heights nodes)
  unfolding place
  place-column cols i heights [] pick len = tt
  place-column cols i heights (node ∷ rest) pick len = (
    pick i heights len,
    place-column cols (i + 1) _ rest pick
        (length-add_at (choose i heights) (card_height input node + vertical_gap) heights ∙ len),
  )

  pub place-nodes :
      (i : ℕ) (heights : List ℕ) (nodes : List NodeInfo)
      → map (λ (q : Placed). q.node) (place choose input i heights nodes) ≡ nodes
  unfolding place
  place-nodes i heights [] = refl
  place-nodes i heights (node ∷ rest) = ap (λ l. node ∷ l) (place-nodes (i + 1) _ rest)

-- The width of a column holds each of its cards.
widest-le : (c w : ℕ) (placed : List Placed) → w ≤ widest c w placed
unfolding widest
widest-le c w [] = omega arith
widest-le c w (p ∷ rest) =
    let w' = if p.column == c then max w (estimate_group_min_width p.node) else w in
    let grows : w ≤ w' = ground arith in omega (arith, grows, widest-le c w' rest)

pub widest-holds :
    (c w : ℕ) (placed : List Placed)
    → All
        (λ (p : Placed). p.column ≡ c → estimate_group_min_width p.node ≤ widest c w placed)
        placed
unfolding widest
widest-holds c w [] = tt
widest-holds c w (p ∷ rest) =
    let w' = if p.column == c then max w (estimate_group_min_width p.node) else w in
    (
      λ (e : p.column ≡ c).
          (let fits : estimate_group_min_width p.node ≤ w' = ground arith in
            omega (arith, fits, widest-le c w' rest)),
      widest-holds c w' rest,
    )

pub nth-map-range : (f : ℕ → ℕ) (from n i : ℕ) → i < n → nth (map f (range from n)) i ≡ f (from + i)
nth-map-range f from zero i h = absurd (omega arith)
nth-map-range f from (suc n) zero h = let e : from ≡ from + 0 = omega arith in ap f e
nth-map-range f from (suc n) (suc i) h =
    let e : from + 1 + i ≡ from + suc i = omega arith in
    nth-map-range f (from + 1) n i (omega arith) ∙ ap f e

pub length-map-range : (f : ℕ → ℕ) (from n : ℕ) → length (map f (range from n)) ≡ n
length-map-range f from zero = refl
length-map-range f from (suc n) = omega (arith, length-map-range f (from + 1) n)

-- A column starts behind the columns to its left, with the gap between them.
column_xs-le : (x : ℕ) (ws : List ℕ) (j : ℕ) → j < length ws → x ≤ nth (column_xs x ws) j
unfolding column_xs
column_xs-le x [] j h = absurd (omega arith)
column_xs-le x (w ∷ ws) zero h = omega arith
column_xs-le x (w ∷ ws) (suc j) h =
    omega (arith, column_xs-le (x + w + horizontal_gap) ws j (omega arith))

pub column_xs-apart :
    (x : ℕ) (ws : List ℕ) (i j : ℕ)
    → i < j
    → j < length ws
    → nth (column_xs x ws) i + nth ws i + horizontal_gap ≤ nth (column_xs x ws) j
unfolding column_xs
column_xs-apart x [] i j h l = absurd (omega arith)
column_xs-apart x (w ∷ ws) i zero h l = absurd (omega arith)
column_xs-apart x (w ∷ ws) zero (suc j) h l =
    column_xs-le (x + w + horizontal_gap) ws j (omega arith)
column_xs-apart x (w ∷ ws) (suc i) (suc j) h l =
    column_xs-apart (x + w + horizontal_gap) ws i j (omega arith) (omega arith)

-- There is at least one column.
pub columns_of-pos : (n w h : ℕ) → 0 < columns_of n w h
unfolding columns_of
columns_of-pos n w h = ground arith
