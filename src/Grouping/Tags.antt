-- ===== src/Grouping/Tags.antt =====
-- How a tag splits into a name and a value.
use Prim.Native.Char.{Char, code}
use Prim.Native.String.{String, [], ◌∷◌}
use text.Mathlib.TextLemmas.{nil-append, cons-append}
use secan.Base.{
  ℕ, ◌-◌, ◌<◌, ◌≡◌, refl, sym, ap, ap₂, ◌∙◌, ◌≢◌, none, List, true, arith, ltb, ◌==◌, ◌+++◌, split,
  join, index_of, text_length, Bool-cases, inl, inr, ◌&&◌,
}
use mathlib.Core.List.{[], ◌∷◌}
use native.Mathlib.Numerals.{add-one}
use text.Mathlib.TextEquality.{Char-path}
use secan.Base.Decimal.{Without, Without-append}
use secan.Base.Split.{
  index_of-Without, index_of-append, take-append, drop-append, length-join, split-append,
}
use secan.Grouping.{extract_label_from_tag}

abbrev colon : Char
colon = ":"

-- A list with a first element.
abbrev IsFull : List String → Type 0
IsFull ps = (p : String) × (rest : List String) × (ps ≡ p ∷ rest)

split-IsFull : (sep : ℕ) (s : String) → IsFull (split sep s)
unfolding split
split-IsFull sep [] = ([], [], refl)
split-IsFull sep (c ∷ s) = elim (Bool-cases (code c == sep)) [
  | inl hit ↦ ([], split sep s, rw hit)
  | inr miss ↦ let (p, rest, e) = split-IsFull sep s in (c ∷ p, rest, rw (miss, e))
]

join-split : (s : String) → join ":" (split b':' s) ≡ s
unfolding split join
join-split [] = refl
join-split (c ∷ s) =
    let (p, rest, e) = split-IsFull b':' s in
    elim (Bool-cases (code c == b':')) [
      | inl hit ↦
          let same : c ≡ colon = Char-path c colon (ground arith) in
          rw hit (
            rw e (
              ap (λ z. z +++ join ":" (p ∷ rest)) (nil-append ":")
              ∙ ap (λ z. ":" +++ join ":" z) (sym e)
              ∙ ap (λ z. ":" +++ z) (join-split s)
              ∙ cons-append colon [] s
              ∙ ap (λ z. colon ∷ z) (nil-append s)
              ∙ ap (λ d. d ∷ s) (sym same)))
      | inr miss ↦ rw miss (
          rw e (
            join-first c p rest
            ∙ ap (λ z. c ∷ join ":" z) (sym e)
            ∙ ap (λ z. c ∷ z) (join-split s)))
    ]
  where
    join-first :
        (c : Char) (p : String) (rest : List String)
        → join ":" ((c ∷ p) ∷ rest) ≡ c ∷ join ":" (p ∷ rest)
    join-first c p [] = refl
    join-first c p (q ∷ qs) =
        ap (λ z. z +++ join ":" (q ∷ qs)) (cons-append c p ":") ∙ cons-append c (p +++ ":") _

text_length-pos : (y : String) → y ≢ "" → 0 < text_length y
text_length-pos [] h = absurd (h refl)
text_length-pos (c ∷ y) h = omega arith

index_of-miss :
    (sep : ℕ) (x : String) (c : Char) (y : String)
    → Without sep x
    → code c ≢ sep
    → Without sep y
    → index_of sep (x +++ (c ∷ y)) ≡ none
index_of-miss sep x c y hx hc hy =
    index_of-Without sep (x +++ (c ∷ y)) (Without-append sep x (c ∷ y) hx (hc, hy))

colon-cons : (y : String) → ":" +++ y ≡ colon ∷ y
colon-cons y = cons-append colon [] y ∙ ap (λ z. colon ∷ z) (nil-append y)

abbrev dash : Char
dash = "-"

dash-cons : (y : String) → "-" +++ y ≡ dash ∷ y
dash-cons y = cons-append dash [] y ∙ ap (λ z. dash ∷ z) (nil-append y)

extract-colon :
    (x y : String)
    → Without b':' x
    → extract_label_from_tag (x +++ (colon ∷ y)) ≡ record { name = x; value = y }
unfolding extract_label_from_tag
extract-colon x y h =
    rw (index_of-append colon x y h)
      (rw (split-append colon x y h) (ap (λ v. record { name = x; value = v }) (join-split y)))

-- A tag with a colon splits at its first colon, and the value keeps all later ones.
pub extract_label_from_tag-colon :
    (x y : String)
    → Without b':' x
    → extract_label_from_tag (x +++ (":" +++ y)) ≡ record { name = x; value = y }
extract_label_from_tag-colon x y h = rw (colon-cons y) (extract-colon x y h)

extract-dash :
    (x y : String)
    → Without b':' x
    → Without b'-' x
    → Without b':' y
    → x ≢ ""
    → y ≢ ""
    → extract_label_from_tag (x +++ (dash ∷ y)) ≡ record { name = x; value = y }
unfolding extract_label_from_tag
extract-dash x y hx hd hy nx ny = rw (index_of-miss b':' x dash y hx (omega arith) hy) (
    rw (index_of-append dash x y hd) (
      rw (inside x y nx ny) (
        ap₂ (λ n v. record { name = n; value = v }) (take-append x (dash ∷ y))
          (rw add-one (drop-append x dash y)))))
  where
    inside :
        (x y : String)
        → x ≢ ""
        → y ≢ ""
        → (ltb 0 (text_length x) && ltb (text_length x) (text_length (x +++ (dash ∷ y)) - 1)) ≡ true
    inside x y nx ny =
        ground (arith, length-join x dash y, text_length-pos x nx, text_length-pos y ny)

-- A tag without a colon splits at its first dash if text stands on both sides of it, also where
-- more dashes follow.
pub extract_label_from_tag-dash :
    (x y : String)
    → Without b':' x
    → Without b'-' x
    → Without b':' y
    → x ≢ ""
    → y ≢ ""
    → extract_label_from_tag (x +++ ("-" +++ y)) ≡ record { name = x; value = y }
extract_label_from_tag-dash x y hx hd hy nx ny = rw (dash-cons y) (extract-dash x y hx hd hy nx ny)
