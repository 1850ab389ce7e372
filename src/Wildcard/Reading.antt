-- ===== src/Wildcard/Reading.antt =====
-- frontend/src/pages/ClusterView.tsx, `matchesWildcard`: the expression that the three replacements build
-- out of a pattern, against what the characters of a pattern mean.
use Prim.Native.Char.{Char}
use Prim.Native.String.{[], ◌∷◌}
use mathlib.Core.List.{[], ◌∷◌}
use text.Mathlib.TextLemmas.{nil-append, cons-append}
use secan.Base.{
  ◌≡◌, refl, ap, ◌∙◌, String, some, List, Bool, true, false, if◌then◌else◌, ◌+++◌, Bool-cases, inl,
  inr, arith,
}
use secan.Wildcard.{
  is_escaped, is_star, is_question, is_backslash, is_dot, replace_each, regex_pattern, Item, lit,
  one, many, fresh, starts_star, read_regex,
}

-- What a character of a pattern means.
abbrev pub meaning : Char → Item
meaning c = if is_star c then many else if is_question c then one else lit c

abbrev pub glob_items : String → List Item
glob_items String.[] = []
glob_items (String.◌∷◌ c s) = meaning c ∷ glob_items s

module _ (found : Char → Bool) (by : Char → String) (c : Char) (s : String) where
  replace_each-other :
      found c ≡ false
      → replace_each found by (String.◌∷◌ c s) ≡ String.◌∷◌ c (replace_each found by s)
  unfolding replace_each
  replace_each-other e =
      rw e (cons-append c "" (replace_each found by s) ∙ ap (String.◌∷◌ c) (nil-append _))

  replace_each-found :
      found c ≡ true → replace_each found by (String.◌∷◌ c s) ≡ by c +++ replace_each found by s
  unfolding replace_each
  replace_each-found e = rw e refl

is_escaped-not_star : (c : Char) → is_escaped c ≡ true → is_star c ≡ false
is_escaped-not_star c e = ground (arith)

is_escaped-not_question : (c : Char) → is_escaped c ≡ true → is_question c ≡ false
is_escaped-not_question c e = ground (arith)

is_star-not_question : (c : Char) → is_star c ≡ true → is_question c ≡ false
is_star-not_question c e = ground (arith)

one-append : (c : Char) (t : String) → String.◌∷◌ c "" +++ t ≡ String.◌∷◌ c t
one-append c t = cons-append c "" t ∙ ap (String.◌∷◌ c) (nil-append t)

two-append :
    (c d : Char) (t : String) → String.◌∷◌ c (String.◌∷◌ d "") +++ t ≡ String.◌∷◌ c (String.◌∷◌ d t)
two-append c d t = cons-append c (String.◌∷◌ d "") t ∙ ap (String.◌∷◌ c) (one-append d t)

abbrev escapes : String → String
escapes s = replace_each is_escaped (λ c. String.◌∷◌ "\\" (String.◌∷◌ c String.[])) s

abbrev stars : String → String
stars s = replace_each is_star (λ c. ".*") s

abbrev questions : String → String
questions s = replace_each is_question (λ c. ".") s

module _ (c : Char) (s : String) where
  -- The second and the third replacement leave a character that is no wildcard.
  stars-plain : is_star c ≡ false → stars (String.◌∷◌ c s) ≡ String.◌∷◌ c (stars s)
  stars-plain e = replace_each-other is_star (λ d. ".*") c s e

  questions-plain : is_question c ≡ false → questions (String.◌∷◌ c s) ≡ String.◌∷◌ c (questions s)
  questions-plain e = replace_each-other is_question (λ d. ".") c s e

  escapes-plain : is_escaped c ≡ false → escapes (String.◌∷◌ c s) ≡ String.◌∷◌ c (escapes s)
  escapes-plain e =
      replace_each-other is_escaped (λ d. String.◌∷◌ "\\" (String.◌∷◌ d String.[])) c s e

  escapes-escaped :
      is_escaped c ≡ true → escapes (String.◌∷◌ c s) ≡ String.◌∷◌ "\\" (String.◌∷◌ c (escapes s))
  escapes-escaped e =
      replace_each-found is_escaped (λ d. String.◌∷◌ "\\" (String.◌∷◌ d String.[])) c s e
      ∙ two-append "\\" c (escapes s)

-- The kinds of characters of a pattern.
data Kind : Char → Type 0 where
  escapes_it : {c : Char} → is_escaped c ≡ true → is_star c ≡ false → is_question c ≡ false → Kind c
  star_it : {c : Char} → is_escaped c ≡ false → is_star c ≡ true → Kind c
  question_it :
      {c : Char} → is_escaped c ≡ false → is_star c ≡ false → is_question c ≡ true → Kind c
  plain_it : {c : Char} → is_escaped c ≡ false → is_star c ≡ false → is_question c ≡ false → Kind c

Kind-cases : (c : Char) → Kind c
Kind-cases c = elim (Bool-cases (is_escaped c)) [
  | inl e ↦ escapes_it e (is_escaped-not_star c e) (is_escaped-not_question c e)
  | inr p ↦ elim (Bool-cases (is_star c)) [
    | inl e ↦ star_it p e
    | inr q ↦ elim (Bool-cases (is_question c)) [
      | inl e ↦ question_it p q e
      | inr e ↦ plain_it p q e
    ]
  ]
]

-- What the three replacements make of a character of each kind.
unfoldable regex_of : {c : Char} → Kind c → String → String
regex_of {c} (escapes_it e q r) t = String.◌∷◌ "\\" (String.◌∷◌ c t)
regex_of {c} (star_it p e) t = String.◌∷◌ "." (String.◌∷◌ "*" t)
regex_of {c} (question_it p q e) t = String.◌∷◌ "." t
regex_of {c} (plain_it p q e) t = String.◌∷◌ c t

regex_pattern-cons :
    (c : Char) (k : Kind c) (s : String)
    → regex_pattern (String.◌∷◌ c s) ≡ regex_of k (regex_pattern s)
unfolding regex_pattern regex_of
regex_pattern-cons c (escapes_it e star question) s =
    ap (λ t. questions (stars t)) (escapes-escaped c s e)
    ∙ ap questions (
        stars-plain "\\" (String.◌∷◌ c (escapes s)) refl
        ∙ ap (String.◌∷◌ "\\") (stars-plain c (escapes s) star))
    ∙ questions-plain "\\" (String.◌∷◌ c (stars (escapes s))) refl
    ∙ ap (String.◌∷◌ "\\") (questions-plain c (stars (escapes s)) question)
regex_pattern-cons c (star_it p e) s =
    ap (λ t. questions (stars t)) (escapes-plain c s p)
    ∙ ap questions (
        replace_each-found is_star (λ d. ".*") c (escapes s) e
        ∙ two-append "." "*" (stars (escapes s)))
    ∙ questions-plain "." (String.◌∷◌ "*" (stars (escapes s))) refl
    ∙ ap (String.◌∷◌ ".") (questions-plain "*" (stars (escapes s)) refl)
regex_pattern-cons c (question_it p q e) s =
    ap (λ t. questions (stars t)) (escapes-plain c s p)
    ∙ ap questions (stars-plain c (escapes s) q)
    ∙ replace_each-found is_question (λ d. ".") c (stars (escapes s)) e
    ∙ one-append "." (regex_pattern s)
regex_pattern-cons c (plain_it p q e) s =
    ap (λ t. questions (stars t)) (escapes-plain c s p)
    ∙ ap questions (stars-plain c (escapes s) q)
    ∙ questions-plain c (stars (escapes s)) e

regex_of-not_star : {c : Char} (k : Kind c) (t : String) → starts_star (regex_of k t) ≡ false
unfolding regex_of
regex_of-not_star (escapes_it e star question) t = refl
regex_of-not_star (star_it p e) t = refl
regex_of-not_star (question_it p q e) t = refl
regex_of-not_star (plain_it p q e) t = q

regex_pattern-not_star : (s : String) → starts_star (regex_pattern s) ≡ false
unfolding regex_pattern replace_each
regex_pattern-not_star String.[] = refl
regex_pattern-not_star (String.◌∷◌ c s) =
    ap starts_star (regex_pattern-cons c (Kind-cases c) s)
    ∙ regex_of-not_star (Kind-cases c) (regex_pattern s)

plain-not_backslash : (c : Char) → is_escaped c ≡ false → is_backslash c ≡ false
plain-not_backslash c e = ground (arith)

plain-not_dot : (c : Char) → is_escaped c ≡ false → is_dot c ≡ false
plain-not_dot c e = ground (arith)

read_regex-regex_of :
    {c : Char} (k : Kind c) (t : String) (items : List Item)
    → starts_star t ≡ false
    → read_regex fresh t ≡ some items
    → read_regex fresh (regex_of k t) ≡ some (meaning c ∷ items)
unfolding read_regex regex_of
read_regex-regex_of (escapes_it e star question) t items no_star has =
    rw e (rw has (rw star (rw question refl)))
read_regex-regex_of (star_it p e) t items no_star has = rw has (rw e refl)
read_regex-regex_of (question_it p q e) t items no_star has =
    rw (read_regex, no_star) (rw has (rw q (rw e refl)))
read_regex-regex_of (plain_it p q e) t items no_star has =
    rw (read_regex, plain-not_backslash _ p)
      (rw (plain-not_dot _ p) (rw p (rw q (rw e (rw has refl)))))

-- The expression that is built is one of the modelled part, and its items are what the characters of the
-- pattern mean: a star any run of characters, a question mark one, every other one itself.
pub read_regex-regex_pattern :
    (s : String) → read_regex fresh (regex_pattern s) ≡ some (glob_items s)
unfolding read_regex regex_pattern replace_each
read_regex-regex_pattern String.[] = refl
read_regex-regex_pattern (String.◌∷◌ c s) =
    ap (read_regex fresh) (regex_pattern-cons c (Kind-cases c) s)
    ∙ read_regex-regex_of (Kind-cases c) (regex_pattern s) (glob_items s) (regex_pattern-not_star s)
        (read_regex-regex_pattern s)
