-- ===== src/Base/Split.antt =====
-- Texts that split at a character.
use Prim.Native.Char.{Char, code}
use Prim.Native.String.{String, [], ◌∷◌}
use text.Mathlib.TextLemmas.{nil-append, cons-append, cons≢nil}
use text.Mathlib.TextEquality.{eq_iff}
use mathlib.Core.Logic.{inl, inr}
use mathlib.Core.List.{[], ◌∷◌}
use mathlib.Core.Path.{◌≡◌, refl, ap}
use mathlib.Core.Bool.{true, false}
use mathlib.Core.Option.{none, some}
use Prim.Native.Nat.{ℕ, suc, ◌+◌}
use native.Mathlib.Omega.{arith}
use secan.Base.Tests.{◌==◌, Bool-cases}
use secan.Base.Text.{truthy, ◌+++◌, split, index_of, text_take, text_drop, text_length}
use secan.Base.Decimal.{Without}

-- Positions of the separator.
pub index_of-Without : (sep : ℕ) (s : String) → Without sep s → index_of sep s ≡ none
unfolding index_of
index_of-Without sep [] h = refl
index_of-Without sep (c ∷ s) h = ground (arith, h.0, index_of-Without sep s h.1)

pub index_of-append :
    (c : Char) (x y : String)
    → Without (code c) x
    → index_of (code c) (x +++ (c ∷ y)) ≡ some (text_length x)
unfolding index_of
index_of-append c [] y h = rw nil-append (ground arith)
index_of-append c (d ∷ x) y h = rw cons-append (ground (arith, h.0, index_of-append c x y h.1))

pub take-append : (x y : String) → text_take (text_length x) (x +++ y) ≡ x
unfolding text_take
take-append [] y = refl
take-append (c ∷ x) y = rw cons-append (ap (λ z. c ∷ z) (take-append x y))

pub drop-append :
    (x : String) (c : Char) (y : String) → text_drop (suc (text_length x)) (x +++ (c ∷ y)) ≡ y
unfolding text_drop
drop-append [] c y = rw nil-append refl
drop-append (d ∷ x) c y = rw cons-append (drop-append x c y)

pub length-join :
    (x : String) (c : Char) (y : String)
    → text_length (x +++ (c ∷ y)) ≡ text_length x + suc (text_length y)
length-join [] c y = rw nil-append (omega arith)
length-join (d ∷ x) c y = rw cons-append (omega (arith, length-join x c y))

pub split-append :
    (c : Char) (x y : String)
    → Without (code c) x
    → split (code c) (x +++ (c ∷ y)) ≡ x ∷ split (code c) y
unfolding split
split-append c [] y h = rw nil-append (ground arith)
split-append c (d ∷ x) y h = rw cons-append (rw (split-append c x y h.1, miss) refl)
  where
    miss : (code d == code c) ≡ false
    miss = ground (arith, h.0)

pub split-Without : (sep : ℕ) (s : String) → Without sep s → split sep s ≡ s ∷ []
unfolding split
split-Without sep [] h = refl
split-Without sep (c ∷ s) h = rw (split-Without sep s h.1, miss) refl
  where
    miss : (code c == sep) ≡ false
    miss = ground (arith, h.0)

-- A text with a first character counts as true.
pub truthy-cons : (c : Char) (s : String) → truthy (c ∷ s) ≡ true
truthy-cons c s = elim (Bool-cases (truthy (c ∷ s))) [
  | inl full ↦ full
  | inr empty ↦ absurd (cons≢nil ((eq_iff (c ∷ s) "").0 (ground arith)))
]
