-- ===== src/Base/Join.antt =====
-- Texts that are joined at a character and split again.
use Prim.Native.Char.{Char, code}
use Prim.Native.String.{String, [] as nil, ◌∷◌ as ◌::◌}
use text.Mathlib.TextLemmas.{nil-append, cons-append, append_assoc}
use mathlib.Core.List.{List, [], ◌∷◌}
use mathlib.Core.Path.{◌≡◌, ap, ◌∙◌}
use Prim.Native.Nat.{ℕ}
use secan.Base.Lists.{All}
use secan.Base.Text.{◌+++◌, split, join}
use secan.Base.Decimal.{Without, Without-append}
use secan.Base.Split.{split-append, split-Without}

one-append : (c : Char) (y : String) → (c :: nil) +++ y ≡ c :: y
one-append c y = cons-append c nil y ∙ ap (λ z. c :: z) (nil-append y)

-- Names that are joined at a character that none of them has are split again.
pub split-join :
    (c : Char) (x : String) (xs : List String)
    → All (Without (code c)) (x ∷ xs)
    → split (code c) (join (c :: nil) (x ∷ xs)) ≡ x ∷ xs
unfolding join
split-join c x [] h = split-Without (code c) x h.0
split-join c x (y ∷ ys) h =
    ap (split (code c)) (
      append_assoc x (c :: nil) (join (c :: nil) (y ∷ ys))
      ∙ ap (λ z. x +++ z) (one-append c (join (c :: nil) (y ∷ ys))))
    ∙ split-append c x (join (c :: nil) (y ∷ ys)) h.0
    ∙ ap (λ l. x ∷ l) (split-join c y ys h.1)

pub join-Without :
    (n : ℕ) (sep : String) (xs : List String)
    → Without n sep
    → All (Without n) xs
    → Without n (join sep xs)
unfolding join
join-Without n sep [] s h = tt
join-Without n sep (x ∷ []) s h = h.0
join-Without n sep (x ∷ (y ∷ ys)) s h =
    Without-append n (x +++ sep) (join sep (y ∷ ys)) (Without-append n x sep h.0 s)
      (join-Without n sep (y ∷ ys) s h.1)
