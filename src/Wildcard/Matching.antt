-- ===== src/Wildcard/Matching.antt =====
-- frontend/src/pages/ClusterView.tsx, `matchesWildcard`: what it decides.
use Prim.Native.Char.{Char}
use Prim.Native.String.{[], ◌∷◌}
use mathlib.Core.List.{[], ◌∷◌}
use mathlib.Core.Option
use text.Mathlib.TextLemmas.{nil-append, cons-append, append_assoc}
use secan.Base.Split.{truthy-cons}
use secan.Base.{
  ◌≡◌, refl, sym, ap, ◌∙◌, subst, ◌↔◌, String, some, List, Bool, true, false, ◌&&◌, ◌||◌, ◌+++◌,
  Bool-cases, inl, inr,
}
use secan.Wildcard.{
  Item, lit, one, many, is_in_line, behind_some, head_passes, match_here, test_regex,
  matches_wildcard,
}
use secan.Wildcard.Reading.{glob_items, read_regex-regex_pattern}

-- A text all of whose characters pass a test.
unfoldable pub Each : (Char → Bool) → String → Type 0
Each ok String.[] = Unit
Each ok (String.◌∷◌ d s) = (ok d ≡ true) × Each ok s

both_true : (a b : Bool) → (a && b) ≡ true → (a ≡ true) × (b ≡ true)
both_true true b h = (refl, h)
both_true false b h = absurd (cc h)

module _ (skips : Char → Bool) (passes : String → Bool) where
  behind_some_sound :
      (s : String)
      → behind_some skips passes s ≡ true
      → (u v : String) × (s ≡ u +++ v) × Each skips u × (passes v ≡ true)
  unfolding behind_some Each
  behind_some_sound String.[] h = ("", "", refl, tt, h)
  behind_some_sound (String.◌∷◌ d s) h = elim (Bool-cases (passes (String.◌∷◌ d s))) [
    | inl here ↦ ("", String.◌∷◌ d s, sym (nil-append _), tt, here)
    | inr not_here ↦
        let later : (skips d && behind_some skips passes s) ≡ true =
          subst (λ b. (b || (skips d && behind_some skips passes s)) ≡ true) not_here h in
        let (skip, rest) = both_true (skips d) (behind_some skips passes s) later in
        let (u, v, e, each, pass) = behind_some_sound s rest in
        (String.◌∷◌ d u, v, ap (String.◌∷◌ d) e ∙ sym (cons-append d u v), (skip, each), pass)
  ]

  behind_some-here : (s : String) → passes s ≡ true → behind_some skips passes s ≡ true
  unfolding behind_some
  behind_some-here String.[] h = h
  behind_some-here (String.◌∷◌ d s) h = rw h refl

  behind_some-later :
      (d : Char) (s : String)
      → skips d ≡ true
      → behind_some skips passes s ≡ true
      → behind_some skips passes (String.◌∷◌ d s) ≡ true
  unfolding behind_some
  behind_some-later d s skip rest = elim (Bool-cases (passes (String.◌∷◌ d s))) [
    | inl here ↦ rw here refl
    | inr not_here ↦ rw not_here (rw skip rest)
  ]

  behind_some_complete :
      (u v : String) → Each skips u → passes v ≡ true → behind_some skips passes (u +++ v) ≡ true
  unfolding behind_some Each
  behind_some_complete String.[] v each pass =
      subst (λ t. behind_some skips passes t ≡ true) (sym (nil-append v)) (behind_some-here v pass)
  behind_some_complete (String.◌∷◌ d u) v each pass =
      subst (λ t. behind_some skips passes t ≡ true) (sym (cons-append d u v))
        (behind_some-later d (u +++ v) each.0 (behind_some_complete u v each.1 pass))

module _ (is : Char → Bool) (passes : String → Bool) where
  head_passes_sound :
      (s : String)
      → head_passes is passes s ≡ true
      → (d : Char) × (t : String) × (s ≡ String.◌∷◌ d t) × (is d ≡ true) × (passes t ≡ true)
  head_passes_sound String.[] h = absurd (cc h)
  head_passes_sound (String.◌∷◌ d t) h =
      let (head, rest) = both_true (is d) (passes t) h in (d, t, refl, head, rest)

module _ (same : Char → Char → Bool) where
  -- The texts that a pattern stands for: a star for any run of characters in a line, a question mark for
  -- one of them, and a character for itself without case.
  unfoldable pub Stands : List Item → String → Type 0
  unfolding Each
  Stands [] s = s ≡ ""
  Stands (lit c ∷ items) s =
      (d : Char) × (t : String) × (s ≡ String.◌∷◌ d t) × (same c d ≡ true) × Stands items t
  Stands (one ∷ items) s =
      (d : Char) × (t : String) × (s ≡ String.◌∷◌ d t) × (is_in_line d ≡ true) × Stands items t
  Stands (many ∷ items) s = (u v : String) × (s ≡ u +++ v) × Each is_in_line u × Stands items v

  match_here_sound :
      (items : List Item) (s : String)
      → match_here same items s ≡ true
      → (u v : String) × (s ≡ u +++ v) × Stands items u
  unfolding match_here Stands
  match_here_sound [] s h = ("", s, sym (nil-append s), refl)
  match_here_sound (lit c ∷ items) s h =
      let (d, t, e, is, rest) = head_passes_sound (same c) (match_here same items) s h in
      let (u, v, f, stands) = match_here_sound items t rest in
      (
        String.◌∷◌ d u,
        v,
        e ∙ ap (String.◌∷◌ d) f ∙ sym (cons-append d u v),
        (d, u, refl, is, stands),
      )
  match_here_sound (one ∷ items) s h =
      let (d, t, e, is, rest) = head_passes_sound is_in_line (match_here same items) s h in
      let (u, v, f, stands) = match_here_sound items t rest in
      (
        String.◌∷◌ d u,
        v,
        e ∙ ap (String.◌∷◌ d) f ∙ sym (cons-append d u v),
        (d, u, refl, is, stands),
      )
  match_here_sound (many ∷ items) s h =
      let (run, t, e, each, rest) = behind_some_sound is_in_line (match_here same items) s h in
      let (u, v, f, stands) = match_here_sound items t rest in
      (
        run +++ u,
        v,
        e ∙ ap (λ r. run +++ r) f ∙ sym (append_assoc run u v),
        (run, u, refl, each, stands),
      )

  match_here_complete :
      (items : List Item) (u v : String) → Stands items u → match_here same items (u +++ v) ≡ true
  unfolding match_here Stands
  match_here_complete [] u v stands = refl
  match_here_complete (lit c ∷ items) u v (d, t, e, is, rest) =
      subst (λ r. head_passes (same c) (match_here same items) r ≡ true)
        (sym (ap (λ r. r +++ v) e ∙ cons-append d t v)) (rw is (match_here_complete items t v rest))
  match_here_complete (one ∷ items) u v (d, t, e, is, rest) =
      subst (λ r. head_passes is_in_line (match_here same items) r ≡ true)
        (sym (ap (λ r. r +++ v) e ∙ cons-append d t v)) (rw is (match_here_complete items t v rest))
  match_here_complete (many ∷ items) u v (run, t, e, each, rest) =
      subst (λ r. behind_some is_in_line (match_here same items) r ≡ true)
        (sym (ap (λ r. r +++ v) e ∙ append_assoc run t v))
        (behind_some_complete is_in_line (match_here same items) run (t +++ v) each
          (match_here_complete items t v rest))

  Each-all : (s : String) → Each (λ d. true) s
  unfolding Each
  Each-all String.[] = tt
  Each-all (String.◌∷◌ d s) = (refl, Each-all s)

  test_regex_iff :
      (items : List Item) (s : String)
      → (test_regex same items s ≡ true)
        ↔ ((before part behind : String) × (s ≡ before +++ (part +++ behind)) × Stands items part)
  unfolding test_regex
  test_regex_iff items s = (
    (λ h.
        let (before, t, e, each, rest) =
          behind_some_sound (λ d. true) (match_here same items) s h in
        let (part, behind, f, stands) = match_here_sound items t rest in
        (before, part, behind, e ∙ ap (λ r. before +++ r) f, stands)),
    λ (before, part, behind, e, stands).
        subst (λ r. behind_some (λ d. true) (match_here same items) r ≡ true) (sym e)
          (behind_some_complete (λ d. true) (match_here same items) before (part +++ behind)
            (Each-all before) (match_here_complete items part behind stands)),
  )

  -- The wildcards decide whether the pattern stands for some part of the text; they never fail, and the
  -- part need not be the whole text.
  pub matches_wildcard_iff :
      (s pattern : String)
      → (b : Bool) × (matches_wildcard same s pattern ≡ some b)
        × ((b ≡ true) ↔ (
            (before part behind : String) × (s ≡ before +++ (part +++ behind))
            × Stands (glob_items pattern) part))
  unfolding matches_wildcard test_regex Stands
  matches_wildcard_iff s String.[] =
      (true, refl, (λ yes. ("", "", s, sym (nil-append _ ∙ nil-append s), refl), λ part. refl))
  matches_wildcard_iff s (String.◌∷◌ c pattern) =
      let items = glob_items (String.◌∷◌ c pattern) in
      (
        test_regex same items s,
        rw (truthy-cons c pattern) (
            ap (Option.map (λ is. test_regex same is s))
              (read_regex-regex_pattern (String.◌∷◌ c pattern))),
        test_regex_iff items s,
      )
