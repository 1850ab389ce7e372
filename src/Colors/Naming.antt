-- ===== src/Colors/Naming.antt =====
-- frontend/src/utils/colors.ts: indices whose names differ in a trailing date or number have one key
-- and one colour.
use Prim.Native.Char.{Char, code}
use Prim.Native.String.{[], ◌∷◌}
use text.Mathlib.TextLemmas.{nil-append, cons-append}
use secan.Base.Split.{truthy-cons}
use secan.Base.{
  String, ◌≡◌, refl, ap, sym, subst, ◌∙◌, none, some, Bool, true, false, ◌&&◌, Bool-cases, inl, inr,
  ◌+++◌, ◌==◌, truthy, arith, strip_prefix, if◌then◌else◌,
}
use secan.Colors.{
  first_digit, more, is_digit, is_numeric, is_numeric_suffix, without_suffix, working_name, dotted,
  key_of, get_index_grouping_key, get_color_for_index, hsl,
}

-- The index name without its leading dot.
abbrev pub undotted : String → String
undotted [] = ""
undotted (c ∷ s) = if code c == b'.' then s else c ∷ s

is_numeric-append :
    (x t : String)
    → is_numeric_suffix t ≡ true
    → (is_numeric first_digit (x +++ t) ≡ is_numeric first_digit x)
      × (is_numeric more (x +++ t) ≡ is_numeric more x)
unfolding is_numeric is_numeric_suffix
is_numeric-append [] [] h = cc
is_numeric-append [] (c ∷ t) h = rw nil-append (ground arith, ground arith)
is_numeric-append (c ∷ x) t h =
    let (a, b) = is_numeric-append x t h in
    rw cons-append (ap (λ z. is_digit (code c) && z) b, ground (arith, a, b))

without_suffix-append :
    (x t : String) → is_numeric_suffix t ≡ true → without_suffix (x +++ t) ≡ without_suffix x
unfolding without_suffix
without_suffix-append [] [] h = cc
without_suffix-append [] (c ∷ t) h = rw nil-append (rw h refl)
without_suffix-append (c ∷ x) t h =
    let (a, b) = is_numeric-append x t h in
    rw cons-append (rw a (rw (without_suffix-append x t h) refl))

working_name-append :
    (x t : String)
    → is_numeric_suffix t ≡ true
    → truthy (without_suffix x) ≡ true
    → working_name (x +++ t) ≡ working_name x
unfolding working_name
working_name-append x t h full = rw (without_suffix-append x t h) (rw full refl)

key_of-dot :
    (separate : Bool) (c : Char) (s : String)
    → (code c == b'.') ≡ true
    → key_of separate (c ∷ s) ≡ dotted separate (working_name s)
unfolding key_of
key_of-dot separate c s dot = rw (key_of, has) refl
  where
    has : strip_prefix "." (c ∷ s) ≡ some s
    has = unfold strip_prefix in rw dot refl

key_of-plain :
    (separate : Bool) (c : Char) (s : String)
    → (code c == b'.') ≡ false
    → key_of separate (c ∷ s) ≡ working_name (c ∷ s)
unfolding key_of
key_of-plain separate c s plain = rw (key_of, has) refl
  where
    has : strip_prefix "." (c ∷ s) ≡ none
    has = unfold strip_prefix in rw plain refl

key_of-append :
    (separate : Bool) (c : Char) (x t : String)
    → is_numeric_suffix t ≡ true
    → truthy (without_suffix (undotted (c ∷ x))) ≡ true
    → key_of separate ((c ∷ x) +++ t) ≡ key_of separate (c ∷ x)
key_of-append separate c x t h full = elim (Bool-cases (code c == b'.')) [
  | inl dot ↦
      let full' = subst (λ b. truthy (without_suffix (if b then x else c ∷ x)) ≡ true) dot full in
      ap (key_of separate) (cons-append c x t)
      ∙ key_of-dot separate c (x +++ t) dot
      ∙ ap (dotted separate) (working_name-append x t h full')
      ∙ sym (key_of-dot separate c x dot)
  | inr plain ↦
      let full' = subst (λ b. truthy (without_suffix (if b then x else c ∷ x)) ≡ true) plain full in
      ap (key_of separate) (cons-append c x t)
      ∙ key_of-plain separate c (x +++ t) plain
      ∙ ap working_name (sym (cons-append c x t))
      ∙ working_name-append (c ∷ x) t h full'
      ∙ sym (key_of-plain separate c x plain)
]

-- An index name and the same name with a trailing date or number, such as `-2026.02.03-232320`, have
-- the same grouping key and the same colour, with system indices apart or not, if the name is more
-- than a leading dot and such a suffix.
pub get_color_for_index-append :
    (name suffix : String) (separate : Bool)
    → is_numeric_suffix suffix ≡ true
    → truthy (without_suffix (undotted name)) ≡ true
    → (get_index_grouping_key (name +++ suffix) separate ≡ get_index_grouping_key name separate)
      × (get_color_for_index (name +++ suffix) separate ≡ get_color_for_index name separate)
unfolding get_index_grouping_key get_color_for_index
get_color_for_index-append [] suffix separate h full = unfold without_suffix in cc full
get_color_for_index-append (c ∷ x) suffix separate h full =
    let e = key_of-append separate c x suffix h full in
    let before = truthy-cons c x in
    let after = ap truthy (cons-append c x suffix) ∙ truthy-cons c (x +++ suffix) in
    (rw (after, before) e, rw (after, before) (rw e refl))

color-key :
    (a : String) (separate : Bool)
    → truthy a ≡ true
    → get_color_for_index a separate ≡ hsl (get_index_grouping_key a separate)
unfolding get_index_grouping_key get_color_for_index
color-key a separate full = rw full refl

-- Two index names that are not empty and have the same grouping key have the same colour.
pub get_color_for_index-key :
    (a b : String) (separate : Bool)
    → truthy a ≡ true
    → truthy b ≡ true
    → get_index_grouping_key a separate ≡ get_index_grouping_key b separate
    → get_color_for_index a separate ≡ get_color_for_index b separate
get_color_for_index-key a b separate full_a full_b same =
    color-key a separate full_a ∙ ap hsl same ∙ sym (color-key b separate full_b)
