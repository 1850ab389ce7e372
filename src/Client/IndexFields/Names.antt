-- ===== src/Client/IndexFields/Names.antt =====
-- frontend/src/api/client.ts, `getIndexFields`: the dotted names of paths.
use package.text.Mathlib.TextLemmas.{cons-append, append_assoc}
use secan.Base.Split.{truthy-cons}
use secan.Base.{
  ◌≡◌, refl, sym, ap, ◌∙◌, String, List, [], ◌∷◌, true, inl, inr, truthy, join, ◌+++◌, All,
  Bool-cases,
}
use secan.Json.{text}
use secan.Client.IndexFields.{full_name}
use secan.Client.IndexFields.Mapping.{dotted}

truthy-append : (x y : String) → truthy x ≡ true → truthy (x +++ y) ≡ true
truthy-append String.[] y h = cc h
truthy-append (String.◌∷◌ c x) y h = rw cons-append (truthy-cons c (x +++ y))

-- A name behind a name behind a prefix.
full_name_assoc :
    (prefix name t : String)
    → truthy name ≡ true
    → full_name (full_name prefix name) t ≡ full_name prefix (name +++ ("." +++ t))
full_name_assoc prefix name t full = elim (Bool-cases (truthy prefix)) [
  | inl some_prefix ↦ rw some_prefix (
      rw (truthy-append prefix ("." +++ name) some_prefix) (
        append_assoc prefix ("." +++ name) ("." +++ t)
        ∙ ap (λ s. prefix +++ s) (append_assoc "." name ("." +++ t))))
  | inr no_prefix ↦ rw no_prefix (rw full refl)
]

-- Behind a prefix stands the path's names with dots between them.
pub dotted-join :
    (prefix name : String) (below : List String)
    → All (λ k. truthy k ≡ true) (name ∷ below)
    → dotted prefix name below ≡ full_name prefix (join "." (name ∷ below))
unfolding dotted join
dotted-join prefix name [] h = refl
dotted-join prefix name (b ∷ below) h =
    dotted-join (full_name prefix name) b below h.1
    ∙ full_name_assoc prefix name (join "." (b ∷ below)) h.0
    ∙ ap (full_name prefix) (sym (append_assoc name "." (join "." (b ∷ below))))
