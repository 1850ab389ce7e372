-- ===== src/Base/Decimal.antt =====
-- Numbers in decimal: reading back what `decimal` writes, and texts joined by a separator.
use Prim.Native.Char.{Char, code}
use Prim.Native.String.{String, [], ◌∷◌}
use text.Mathlib.TextLemmas.{
  append_assoc, nil-append, cons-append, head-eq_of_cons-eq, tail-eq_of_cons-eq,
}
use secan.Base.Tests.{ltb, Bool-cases}
use secan.Base.Text.{◌+++◌, digit, decimal, decimal_from, show_bool}
use Prim.Native.Nat.{ℕ, zero, suc, ◌+◌, ◌-◌, ◌*◌, ◌/◌, ◌%◌, ◌<◌}
use mathlib.Core.Path.{◌≡◌, refl, sym, ap, ap₂, subst, ◌∙◌}
use mathlib.Core.Logic.{◌≢◌, ◌⊎◌, inl, inr}
use mathlib.Core.Bool.{Bool, true, false}
use text.Mathlib.TextEquality.{eq_iff}
use native.Mathlib.Omega.{arith}

-- The number that a text of digits stands for.
unfoldable pub read : ℕ → String → ℕ
read acc [] = acc
read acc (c ∷ s) = read (acc * 10 + (code c - 48)) s

-- No character of the text has the code.
abbrev pub Without : ℕ → String → Type 0
Without n [] = Unit
Without n (c ∷ s) = (code c ≢ n) × Without n s

pub Without-append : (n : ℕ) (s t : String) → Without n s → Without n t → Without n (s +++ t)
Without-append n [] t p q = rw nil-append q
Without-append n (c ∷ s) t p q = rw cons-append (p.0, Without-append n s t p.1 q)

read-append : (acc : ℕ) (s t : String) → read acc (s +++ t) ≡ read (read acc s) t
unfolding read
read-append acc [] t = rw nil-append
read-append acc (c ∷ s) t = rw cons-append (read-append (acc * 10 + (code c - 48)) s t)

read-digit : (acc d : ℕ) → d < 10 → read acc (digit d) ≡ acc * 10 + d
unfolding read
read-digit acc zero h = omega arith
read-digit acc (suc zero) h = omega arith
read-digit acc (suc (suc zero)) h = omega arith
read-digit acc (suc (suc (suc zero))) h = omega arith
read-digit acc (suc (suc (suc (suc zero)))) h = omega arith
read-digit acc (suc (suc (suc (suc (suc zero))))) h = omega arith
read-digit acc (suc (suc (suc (suc (suc (suc zero)))))) h = omega arith
read-digit acc (suc (suc (suc (suc (suc (suc (suc zero))))))) h = omega arith
read-digit acc (suc (suc (suc (suc (suc (suc (suc (suc zero)))))))) h = omega arith
read-digit acc (suc (suc (suc (suc (suc (suc (suc (suc (suc n))))))))) h = omega arith

-- The code of a character that is no digit.
abbrev pub NoDigit : ℕ → Type 0
NoDigit sep = (sep < 48) ⊎ (57 < sep)

digit-Without : (sep d : ℕ) → NoDigit sep → Without sep (digit d)
digit-Without sep zero h = omega arith
digit-Without sep (suc zero) h = omega arith
digit-Without sep (suc (suc zero)) h = omega arith
digit-Without sep (suc (suc (suc zero))) h = omega arith
digit-Without sep (suc (suc (suc (suc zero)))) h = omega arith
digit-Without sep (suc (suc (suc (suc (suc zero))))) h = omega arith
digit-Without sep (suc (suc (suc (suc (suc (suc zero)))))) h = omega arith
digit-Without sep (suc (suc (suc (suc (suc (suc (suc zero))))))) h = omega arith
digit-Without sep (suc (suc (suc (suc (suc (suc (suc (suc zero)))))))) h = omega arith
digit-Without sep (suc (suc (suc (suc (suc (suc (suc (suc (suc n))))))))) h = omega arith

decimal_from-Without : (sep f n : ℕ) → NoDigit sep → Without sep (decimal_from f n)
unfolding decimal_from
decimal_from-Without sep zero n h = tt
decimal_from-Without sep (suc f) n h = elim (Bool-cases (ltb n 10)) [
  | inl small ↦ rw small (digit-Without sep n h)
  | inr large ↦ rw large (
      Without-append sep _ _ (decimal_from-Without sep f (n / 10) h) (digit-Without sep (n % 10) h))
]

pub decimal-Without : (sep n : ℕ) → NoDigit sep → Without sep (decimal n)
unfolding decimal
decimal-Without sep n h = decimal_from-Without sep (suc n) n h

read-decimal_from : (f n : ℕ) → n < f → read 0 (decimal_from f n) ≡ n
unfolding decimal_from
read-decimal_from zero n h = absurd (omega arith)
read-decimal_from (suc f) n h = elim (Bool-cases (ltb n 10)) [
  | inl small ↦ rw small (read-digit 0 n (ground arith) ∙ omega arith)
  | inr large ↦ rw large (
      read-append 0 (decimal_from f (n / 10)) (digit (n % 10))
      ∙ ap (λ a. read a (digit (n % 10))) (read-decimal_from f (n / 10) (ground arith))
      ∙ read-digit (n / 10) (n % 10) (omega arith)
      ∙ omega arith)
]

pub read-decimal : (n : ℕ) → read 0 (decimal n) ≡ n
unfolding decimal
read-decimal n = read-decimal_from (suc n) n (omega arith)

pub decimal-injective : (m n : ℕ) → decimal m ≡ decimal n → m ≡ n
decimal-injective m n e = sym (read-decimal m) ∙ ap (read 0) e ∙ read-decimal n

not-Without :
    (n : ℕ) (s : String) (c : Char) (t : String) → code c ≡ n → ¬ Without n (s +++ (c ∷ t))
not-Without n [] c t e h = (rw nil-append at h).0 e
not-Without n (d ∷ s) c t e h = not-Without n s c t e (rw cons-append at h).1

split_at :
    (c : Char) (s t s' t' : String)
    → Without (code c) t
    → Without (code c) t'
    → s +++ (c ∷ t) ≡ s' +++ (c ∷ t')
    → (s ≡ s') × (t ≡ t')
split_at c [] t [] t' h h' e = (refl, tail-eq_of_cons-eq (sym (nil-append _) ∙ e ∙ nil-append _))
split_at c [] t (d ∷ s') t' h h' e = absurd (
    not-Without (code c) s' c t' refl (
      subst (Without (code c)) (tail-eq_of_cons-eq (sym (nil-append _) ∙ e ∙ cons-append d s' _))
        h))
split_at c (b ∷ s) t [] t' h h' e = absurd (
    not-Without (code c) s c t refl (
      subst (Without (code c)) (tail-eq_of_cons-eq (sym (nil-append _) ∙ sym e ∙ cons-append b s _))
        h'))
split_at c (b ∷ s) t (d ∷ s') t' h h' e =
    let e' : b ∷ (s +++ (c ∷ t)) ≡ d ∷ (s' +++ (c ∷ t')) =
      sym (cons-append b s _) ∙ e ∙ cons-append d s' _ in
    let (heads, tails) = split_at c s t s' t' h h' (tail-eq_of_cons-eq e') in
    (ap₂ (λ x y. x ∷ y) (head-eq_of_cons-eq e') heads, tails)

joined : (c : Char) (x y : String) → x +++ (c ∷ []) +++ y ≡ x +++ (c ∷ y)
joined c x y =
    append_assoc x (c ∷ []) y
    ∙ ap (λ z. x +++ z) (cons-append c [] y ∙ ap (λ z. c ∷ z) (nil-append y))

-- A text splits in one way at its last separator.
pub split_last :
    (c : Char) (s t s' t' : String)
    → Without (code c) t
    → Without (code c) t'
    → s +++ (c ∷ []) +++ t ≡ s' +++ (c ∷ []) +++ t'
    → (s ≡ s') × (t ≡ t')
split_last c s t s' t' h h' e = split_at c s t s' t' h h' (sym (joined c s t) ∙ e ∙ joined c s' t')

pub show_bool-Without : (b : Bool) → Without b':' (show_bool b)
show_bool-Without true = omega arith
show_bool-Without false = omega arith

pub show_bool-injective : (a b : Bool) → show_bool a ≡ show_bool b → a ≡ b
show_bool-injective a b e = ground (arith, eq_iff "true" "false")
