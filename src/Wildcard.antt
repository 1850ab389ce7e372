-- ===== src/Wildcard.antt =====
-- frontend/src/pages/ClusterView.tsx, `matchesWildcard`. The filters of the topology page use
-- it. The part of the language's regular expressions that the built text can use is modelled: escaped and
-- plain characters, the dot, and the dot with a star. Comparison without case is a parameter on
-- characters.
pub mod Reading
pub mod Matching
use Prim.Native.Char.{Char, code}
use Prim.Native.String.{[], ◌∷◌}
use mathlib.Core.List.{[], ◌∷◌}
use mathlib.Core.Option
use secan.Base.{
  ℕ, String, Option, none, some, List, ◌++◌, Bool, true, false, not, ◌&&◌, ◌||◌, if◌then◌else◌,
  ◌==◌, ◌+++◌, truthy, any,
}

-- The characters that the first replacement puts a backslash before: . + ^ $ { } ( ) | [ ] and \.
abbrev pub is_escaped : Char → Bool
is_escaped c =
    any (λ (k : ℕ). k == code c) (46 ∷ 43 ∷ 94 ∷ 36 ∷ 123 ∷ 125 ∷ 40 ∷ 41 ∷ 124 ∷ 91 ∷ 93 ∷ 92 ∷ [])

abbrev pub is_star : Char → Bool
is_star c = code c == 42

abbrev pub is_question : Char → Bool
is_question c = code c == 63

-- A replacement of each character that a test finds.
unfoldable pub replace_each : (Char → Bool) → (Char → String) → String → String
replace_each found by String.[] = String.[]
replace_each found by (String.◌∷◌ c s) =
    (if found c then by c else String.◌∷◌ c String.[]) +++ replace_each found by s

unfoldable pub regex_pattern : String → String
unfolding replace_each
regex_pattern pattern =
    replace_each is_question (λ c. ".")
      (replace_each is_star (λ c. ".*")
        (replace_each is_escaped (λ c. String.◌∷◌ "\\" (String.◌∷◌ c String.[])) pattern))

pub data Item : Type 0 where
  lit : Char → Item
  one : Item
  many : Item

-- What a character of the text stands behind: nothing, a backslash, or the dot of `.*`.
pub data Place : Type 0 where
  fresh escaped starred : Place

abbrev pub starts_star : String → Bool
starts_star String.[] = false
starts_star (String.◌∷◌ c s) = is_star c

abbrev pub is_dot : Char → Bool
is_dot c = code c == 46

abbrev pub is_backslash : Char → Bool
is_backslash c = code c == 92

-- A character in its place, with the text behind it; `none` is an expression that is not of this part.
abbrev pub read_char : Place → Char → String → Option (Place × List Item)
read_char fresh c s =
    if is_backslash c
    then some (escaped, [])
    else if is_dot c
    then (if starts_star s then some (starred, many ∷ []) else some (fresh, one ∷ []))
    else if is_escaped c || is_star c || is_question c
    then none
    else some (fresh, lit c ∷ [])
read_char escaped c s = if is_escaped c then some (fresh, lit c ∷ []) else none
read_char starred c s = some (fresh, [])

abbrev pub at_end : Place → Option (List Item)
at_end fresh = some []
at_end _ = none

unfoldable pub read_regex : Place → String → Option (List Item)
read_regex p String.[] = at_end p
read_regex p (String.◌∷◌ c s) = elim (read_char p c s) [
  | none ↦ none
  | some (next, items) ↦ Option.map (λ rest. items ++ rest) (read_regex next s)
]

-- The characters that a dot does not match end lines.
abbrev pub is_in_line : Char → Bool
is_in_line d = not (any (λ (k : ℕ). k == code d) (10 ∷ 13 ∷ 8232 ∷ 8233 ∷ []))

-- Whether the rest of a text passes, from here or behind any number of characters that are skipped.
unfoldable pub behind_some : (Char → Bool) → (String → Bool) → String → Bool
behind_some skips passes String.[] = passes String.[]
behind_some skips passes (String.◌∷◌ d s) =
    passes (String.◌∷◌ d s) || (skips d && behind_some skips passes s)

abbrev pub head_passes : (Char → Bool) → (String → Bool) → String → Bool
head_passes is passes String.[] = false
head_passes is passes (String.◌∷◌ d s) = is d && passes s

module _ (same : Char → Char → Bool) where
  -- The match of an expression from a position on; it may end before the text does.
  unfoldable pub match_here : List Item → String → Bool
  unfolding behind_some
  match_here [] s = true
  match_here (lit c ∷ items) s = head_passes (same c) (match_here items) s
  match_here (one ∷ items) s = head_passes is_in_line (match_here items) s
  match_here (many ∷ items) s = behind_some is_in_line (match_here items) s

  -- `regex.test`: the expression has no anchors, so it may match from any position on.
  unfoldable pub test_regex : List Item → String → Bool
  unfolding behind_some match_here
  test_regex items s = behind_some (λ d. true) (match_here items) s

  -- `none` would be an error of `new RegExp`, or an expression of another part.
  unfoldable pub matches_wildcard : String → String → Option Bool
  unfolding regex_pattern read_regex test_regex
  matches_wildcard s pattern =
      if truthy pattern
      then Option.map (λ items. test_regex items s) (read_regex fresh (regex_pattern pattern))
      else some true
