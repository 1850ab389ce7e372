-- ===== src/CanvasView/Passing.antt =====
-- The filters of frontend/src/components/Topology/CanvasTopologyView.tsx, written out.
use Prim.Native.Char.{Char, code}
use secan.Base.{
  ◌≡◌, refl, sym, ap, ◌∙◌, ◌↔◌, ◌⊎◌, inl, inr, String, Option, none, some, List, [], ◌∷◌, Bool,
  true, false, ◌==◌, ◌===◌, truthy, is_some, includes, strip_prefix, or_else, arith, eq_iff,
  if◌then◌else◌, Bool-cases, Option-cases,
}
use secan.Api.{ShardInfo}
use secan.Canvas.{unassigned_key}
use secan.CanvasView.{View, state_selected, name_matches, is_shown, key_of}

-- No state is selected, or the shard's is.
abbrev pub HasState : Option (List String) → String → Type 0
HasState selected state =
    (selected ≡ none)
    ⊎ (selected ≡ some [])
    ⊎ ((states : List String) × (selected ≡ some states) × (includes states state ≡ true))

-- The names of special indices start with a dot.
abbrev pub IsSpecial : String → Type 0
IsSpecial index = (d : Char) × (rest : String) × (index ≡ String.◌∷◌ d rest) × (code d ≡ b'.')

-- There is no test of patterns or no pattern, or the name passes the test.
abbrev pub HasName : Option (String → String → Bool) → String → String → Type 0
HasName test pattern index =
    (test ≡ none)
    ⊎ (pattern ≡ "")
    ⊎ ((matches : String → String → Bool) × (test ≡ some matches) × (matches index pattern ≡ true))

abbrev pub IsPassing : View → ShardInfo → Type 0
IsPassing v s =
    HasState v.selected_shard_states s.state
    × ((v.show_special_indices ≡ true) ⊎ (¬ (IsSpecial s.index)))
    × HasName v.matches_wildcard v.index_name_filter s.index

-- The shard's node is the text, or it has no node and the text is that of the placeholder.
abbrev pub LiesOn : String → ShardInfo → Type 0
LiesOn k s = (s.node ≡ some k) ⊎ ((s.node ≡ none) × (k ≡ unassigned_key))

state_selected_iff :
    (o : Option (List String)) (state : String) → (state_selected o state ≡ true) ↔ HasState o state
state_selected_iff none state = (λ h. inl refl, λ h. refl)
state_selected_iff (some []) state = (λ h. inr (inl refl), λ h. refl)
state_selected_iff (some (x ∷ xs)) state = (
  λ h. inr (inr (x ∷ xs, refl, h)),
  λ h. elim h [
    | inl e ↦ absurd (cc e)
    | inr (inl e) ↦ absurd (cc e)
    | inr (inr (states, e, listed)) ↦ ap (λ o. includes (or_else o []) state) e ∙ listed
  ],
)

strip_prefix_iff : (index : String) → (is_some (strip_prefix "." index) ≡ true) ↔ IsSpecial index
unfolding strip_prefix
strip_prefix_iff String.[] = (
  λ h. absurd (cc h),
  λ (d, rest, e, dot).
      let off : false ≡ true =
        ap (λ t. is_some (strip_prefix "." t)) e
        ∙ ap (λ b. is_some (if b then some rest else none)) (same d dot) in
      absurd (cc off),
)
  where
    same : (c : Char) → code c ≡ b'.' → (code c == b'.') ≡ true
    same c dot = ground arith
strip_prefix_iff (String.◌∷◌ d s) = (
  λ h. elim (Bool-cases (code d == b'.')) [
    | inl dot ↦ let number : code d ≡ b'.' = ground arith in (d, s, refl, number)
    | inr other ↦ absurd (ground arith)
  ],
  λ (c, rest, e, dot). ap (λ t. is_some (strip_prefix "." t)) e ∙ rw dot refl,
)

name_matches_iff :
    (o : Option (String → String → Bool)) (pattern index : String)
    → (name_matches o index pattern ≡ true) ↔ HasName o pattern index
name_matches_iff none pattern index = (λ h. inl refl, λ h. refl)
name_matches_iff (some matches) pattern index = (
  λ h. elim (Bool-cases (truthy pattern)) [
    | inl given_here ↦ inr (inr (matches, refl, ground arith))
    | inr empty ↦
        inr (inl (let same : (pattern === "") ≡ true = ground arith in (eq_iff pattern "").0 same))
  ],
  λ h. elim h [
    | inl e ↦ absurd (cc e)
    | inr (inl e) ↦ rw e refl
    | inr (inr (test, e, found)) ↦ ap (λ o. name_matches o index pattern) e ∙ ground (arith, found)
  ],
)

pub is_shown_iff : (v : View) (s : ShardInfo) → (is_shown v s ≡ true) ↔ IsPassing v s
unfolding is_shown
is_shown_iff v s =
    let states = state_selected_iff v.selected_shard_states s.state in
    let special = strip_prefix_iff s.index in
    let names = name_matches_iff v.matches_wildcard v.index_name_filter s.index in
    (
      λ h. (
        states.0 (ground arith),
        elim (Bool-cases v.show_special_indices) [
          | inl all ↦ inl all
          | inr some_hidden ↦ inr (λ e. let dot = special.1 e in ground arith)
        ],
        names.0 (ground arith),
      ),
      λ (a, b, c).
          let passes = names.1 c in
          let selected = states.1 a in
          elim b [
            | inl all ↦ ground arith
            | inr plain ↦ elim (Bool-cases (is_some (strip_prefix "." s.index))) [
              | inl dot ↦ absurd (plain (special.0 dot))
              | inr no_dot ↦ ground arith
            ]
          ],
    )

pub key_of_iff : (s : ShardInfo) (k : String) → ((key_of s === k) ≡ true) ↔ LiesOn k s
key_of_iff s k = elim (Option-cases s.node) [
  | inl unset ↦ (
    λ h. inr (
      unset,
      sym ((eq_iff unassigned_key k).0 (ap (λ o. or_else o unassigned_key === k) (sym unset) ∙ h)),
    ),
    λ h. elim h [
      | inl e ↦ absurd (cc (unset, e))
      | inr (e, same) ↦
          ap (λ o. or_else o unassigned_key === k) unset ∙ (eq_iff unassigned_key k).1 (sym same)
    ],
  )
  | inr (j, set) ↦ (
    λ h.
        inl
          (set ∙ ap some ((eq_iff j k).0 (ap (λ o. or_else o unassigned_key === k) (sym set) ∙ h))),
    λ h. elim h [
      | inl e ↦ ap (λ o. or_else o unassigned_key === k) e ∙ (eq_iff k k).1 refl
      | inr (e, same) ↦ absurd (cc (set, e))
    ],
  )
]
