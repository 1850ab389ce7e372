-- ===== src/Routes/RoundTrip.antt =====
-- Addresses and task ids are read back from their texts.
use Prim.Native.Char.{Char, code}
use Prim.Native.String.{String, [], ◌∷◌}
use text.Mathlib.TextLemmas.{nil-append, cons-append, append_assoc}
use mathlib.Core.List.{List, [], ◌∷◌}
use secan.Base.{
  ℕ, ◌≡◌, refl, ap, subst, ◌∙◌, ◌≢◌, Option, none, some, Bool, true, false, if◌then◌else◌, arith,
  eq_iff, ◌===◌, ◌+++◌, ◌==◌, All, includes, given, split, decimal, Bool-cases, inl, inr,
}
use secan.Base.Decimal.{Without, decimal-Without}
use secan.Base.Split.{split-append, split-Without}
use secan.Routes.{
  is_valid_cluster_section, available_sections, valid_section, build_cluster_section_url,
  behind_cluster, extract_cluster_id_from_path, extract_section_from_path, parse_cluster_path,
  second_part, if_valid, create_task_id, parse_task_id,
}

abbrev slash : Char
slash = "/"

abbrev colon : Char
colon = ":"

one-append : (c : Char) (y : String) → (c ∷ []) +++ y ≡ c ∷ y
one-append c y = cons-append c [] y ∙ ap (λ z. c ∷ z) (nil-append y)

-- A task id is read back as the node and the number it was made from, if the node's name has no
-- colon and `parseInt` reads back the number's decimal numeral.
pub parse_task_id-create_task_id :
    (parse_int : String → Option ℕ) (node : String) (id : ℕ)
    → Without b':' node
    → parse_int (decimal id) ≡ some id
    → parse_task_id parse_int (create_task_id node id) ≡ record { node = node; id = some id }
unfolding parse_task_id create_task_id
parse_task_id-create_task_id parse_int node id h reads = rw (one-append colon (decimal id)) (
    rw (split-append colon node (decimal id) h) (
      rw (split-Without b':' (decimal id) (decimal-Without b':' id (omega arith))) (rw reads refl)))

-- A test for a text without a character.
abbrev is_without : ℕ → String → Bool
is_without n [] = true
is_without n (c ∷ s) = if code c == n then false else is_without n s

is_without-Without : (n : ℕ) (s : String) → is_without n s ≡ true → Without n s
is_without-Without n [] h = tt
is_without-Without n (c ∷ s) h = (λ e. ground arith, is_without-Without n s (ground arith))

cluster_prefix : (s : String) → "/cluster/" +++ s ≡ slash ∷ ("cluster" +++ (slash ∷ s))
cluster_prefix s = rw (← one-append slash s) (
    rw (← one-append slash ("cluster" +++ ("/" +++ s)))
      (append_assoc "/cluster" "/" s ∙ append_assoc "/" "cluster" ("/" +++ s)))

cluster-parts :
    (id section : String)
    → Without b'/' id
    → Without b'/' section
    → behind_cluster (split b'/' ("/cluster/" +++ (id +++ ("/" +++ section)))) ≡ id ∷ (section ∷ [])
unfolding behind_cluster
cluster-parts id section h k = rw (cluster_prefix (id +++ ("/" +++ section))) (
    rw (one-append slash section) (
      rw (parts (id +++ (slash ∷ section)))
        (rw (split-append slash id section h) (rw (split-Without b'/' section k) refl))))
  where
    parts :
        (s : String)
        → split b'/' (slash ∷ ("cluster" +++ (slash ∷ s))) ≡ "" ∷ ("cluster" ∷ split b'/' s)
    parts s =
        unfold split in
        ap (λ l. "" ∷ l) (split-append slash "cluster" s (is_without-Without b'/' "cluster" refl))

by_member :
    (P : String → Type 0) (xs : List String) (s : String) → includes xs s ≡ true → All P xs → P s
by_member P [] s h a = cc
by_member P (x ∷ xs) s h a = elim (Bool-cases (x === s)) [
  | inl same ↦ subst P ((eq_iff x s).0 same) a.0
  | inr other ↦ by_member P xs s (ground arith) a.1
]

-- What the code relies on for the text of a section.
abbrev IsSegment : String → Type 0
IsSegment s = Without b'/' s × (Without b'?' s × (given (some s) ≡ some s))

segment :
    (s : String)
    → is_without b'/' s ≡ true
    → is_without b'?' s ≡ true
    → given (some s) ≡ some s
    → IsSegment s
segment s h k g = (is_without-Without b'/' s h, (is_without-Without b'?' s k, g))

valid-IsSegment : (s : String) → is_valid_cluster_section s ≡ true → IsSegment s
unfolding is_valid_cluster_section
valid-IsSegment s h = by_member IsSegment available_sections s h (
  segment _ refl refl refl,
  (
    segment _ refl refl refl,
    (
      segment _ refl refl refl,
      (
        segment _ refl refl refl,
        (
          segment _ refl refl refl,
          (segment _ refl refl refl, (segment _ refl refl refl, (segment _ refl refl refl, tt))),
        ),
      ),
    ),
  ),
)

valid_section_valid : (o : Option String) → is_valid_cluster_section (valid_section o) ≡ true
valid_section_valid none = unfold is_valid_cluster_section in refl
valid_section_valid (some s) = elim (Bool-cases (is_valid_cluster_section s)) [
  | inl ok ↦ rw (ok, valid_section) ok
  | inr bad ↦ rw (bad, valid_section) (unfold is_valid_cluster_section in refl)
]

second :
    (id v : String)
    → given (some id) ≡ some id
    → given (some v) ≡ some v
    → split b'?' v ≡ v ∷ []
    → second_part (id ∷ (v ∷ [])) ≡ some v
second id v g full whole = rw (g, second_part) (rw whole full)

extract_section-parts :
    (background : String → Option String) (path id v : String)
    → behind_cluster (split b'/' path) ≡ id ∷ (v ∷ [])
    → given (some id) ≡ some id
    → IsSegment v
    → is_valid_cluster_section v ≡ true
    → extract_section_from_path background path none ≡ some v
unfolding extract_section_from_path
extract_section-parts background path id v e g (no_slash, (no_query, full)) ok =
    rw (e, extract_section_from_path)
      (ap if_valid (second id v g full (split-Without b'?' v no_query)) ∙ rw ok refl)

parse_cluster_path-parts :
    (background : String → Option String) (path id v : String)
    → behind_cluster (split b'/' path) ≡ id ∷ (v ∷ [])
    → given (some id) ≡ some id
    → IsSegment v
    → is_valid_cluster_section v ≡ true
    → parse_cluster_path background path ≡ record { cluster_id = some id; section = some v }
unfolding parse_cluster_path extract_cluster_id_from_path
parse_cluster_path-parts background path id v e g is_segment ok =
    rw (e, parse_cluster_path)
      (rw g (
        ap (λ o. record { cluster_id = some id; section = o })
          (extract_section-parts background path id v e g is_segment ok)))

-- The address of a section is read back as the cluster's id and the section; a section that is
-- missing or unknown is the overview. The id is not empty and has no slash.
pub parse_cluster_path-build_cluster_section_url :
    (background : String → Option String) (id : String) (section : Option String)
    → id ≢ ""
    → Without b'/' id
    → parse_cluster_path background (build_cluster_section_url id section)
      ≡ record { cluster_id = some id; section = some (valid_section (given section)) }
unfolding build_cluster_section_url
parse_cluster_path-build_cluster_section_url background id section nonempty h =
    let v = valid_section (given section) in
    let ok = valid_section_valid (given section) in
    let is_segment = valid-IsSegment v ok in
    let given_id : given (some id) ≡ some id = ground (arith, eq_iff id "", nonempty) in
    parse_cluster_path-parts background _ id v (cluster-parts id v h is_segment.0) given_id
      is_segment ok
