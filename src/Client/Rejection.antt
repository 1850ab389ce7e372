-- ===== src/Client/Rejection.antt =====
-- frontend/src/api/client.ts, `handleError`: what it redirects to and what it rejects with.
use Prim.Native.Char.{Char}
use Prim.Native.String.{[], ◌∷◌}
use mathlib.Core.List.{[], ◌∷◌}
use text.Mathlib.TextLemmas.{nil-append, cons-append}
use secan.Base.Split.{truthy-cons}
use secan.Base.{
  ℕ, ◌≡◌, refl, ap, sym, subst, ◌∙◌, List, String, Option, none, some, Bool, true, ◌||◌, Bool-cases,
  Option-cases, inl, inr, ◌==◌, ◌+++◌, holds, is_some, truthy, arith, split, strip_prefix,
}
use secan.Base.Decimal.{Without}
use secan.Base.Split.{split-append}
use secan.Client.{
  AxiosError, Response, Handled, handle_error, handle_response, match_cluster, redirect_path,
  or_text, body_message,
}

given-truthy : (o : Option String) (d : String) → truthy d ≡ true → truthy (or_text o d) ≡ true
given-truthy none d h = h
given-truthy (some s) d h = elim (Bool-cases (truthy s)) [
  | inl full ↦ rw full full
  | inr empty ↦ rw empty h
]

abbrev slash : Char
slash = "/"

one-append : (c : Char) (y : String) → (c ∷ []) +++ y ≡ c ∷ y
one-append c y = cons-append c [] y ∙ ap (λ z. c ∷ z) (nil-append y)

prefix-truthy : (s : String) → truthy ("Network error: " +++ s) ≡ true
prefix-truthy s =
    let first : Char = "N" in
    subst (λ t. truthy t ≡ true) (sym (cons-append first "etwork error: " s))
      (truthy-cons first ("etwork error: " +++ s))

abbrev pub status_of : Option Response → ℕ
status_of none = 0
status_of (some r) = r.status

abbrev pub is_denied : Option Response → Bool
is_denied o = holds (λ r. r.status == 401 || r.status == 403) o

abbrev pub Says : Option Response → Handled → Type 0
Says o h =
    (is_some h.redirect ≡ is_denied o)
    × (h.rejection.status_code ≡ status_of o)
    × (truthy h.rejection.message ≡ true)

strip_prefix-append : (p s : String) → strip_prefix p (p +++ s) ≡ some s
unfolding strip_prefix
strip_prefix-append [] s = rw nil-append refl
strip_prefix-append (c ∷ p) s = rw cons-append (ground (arith, strip_prefix-append p s))

match_cluster-prefixed :
    (s behind name : String) (parts : List String)
    → strip_prefix "/clusters/" s ≡ some behind
    → split b'/' behind ≡ name ∷ parts
    → truthy name ≡ true
    → match_cluster s ≡ some name
unfolding match_cluster
match_cluster-prefixed [] behind name parts h p full = unfold strip_prefix in cc h
match_cluster-prefixed (c ∷ s) behind name parts h p full =
    rw (match_cluster, h) (rw p (rw full refl))

match_cluster-clusters :
    (id path : String)
    → truthy id ≡ true
    → Without b'/' id
    → match_cluster ("/clusters/" +++ (id +++ ("/" +++ path))) ≡ some id
match_cluster-clusters id path full plain =
    match_cluster-prefixed _ (id +++ ("/" +++ path)) id (split b'/' path)
      (strip_prefix-append "/clusters/" _)
      (rw (one-append slash path) (split-append slash id path plain)) full

module _ (encode : String → String) where
  handle_response-Says :
      (location : String) (e : AxiosError) (r : Response)
      → Says (some r) (handle_response encode location e r)
  unfolding handle_response
  handle_response-Says location e r = elim (Bool-cases (r.status == 401)) [
    | inl login ↦ rw login (refl, ground arith, refl)
    | inr other ↦ elim (Bool-cases (r.status == 403)) [
      | inl denied ↦ rw (other, denied) (refl, ground arith, refl)
      | inr free ↦
          rw (other, free)
            (refl, refl, given-truthy (body_message r.body) _ (given-truthy e.message _ refl))
    ]
  ]

  -- For every error of axios `handleError` sets a new location exactly when the response has status
  -- 401 or 403; it always rejects, with the response's status or 0 if there is no response, and with
  -- a message that is not empty.
  pub handle_error-Says :
      (location : String) (e : AxiosError) → Says e.response (handle_error encode location e)
  unfolding handle_error
  handle_error-Says location e = elim (Option-cases e.response) [
    | inr (r, answered) ↦ rw answered (handle_response-Says location e r)
    | inl silent ↦ elim (Bool-cases e.request) [
      | inl sent ↦ rw (silent, sent) (refl, refl, prefix-truthy _)
      | inr unsent ↦ rw (silent, unsent) (refl, refl, given-truthy e.message _ refl)
    ]
  ]

  -- A response with status 403 to a request on `/clusters/<id>/...`, where the id is not empty and has
  -- no slash, redirects to `/access-denied/` with the encoded id.
  pub handle_error-forbidden :
      (location id path : String) (e : AxiosError) (r : Response)
      → truthy id ≡ true
      → Without b'/' id
      → e.response ≡ some r
      → r.status ≡ 403
      → e.url ≡ some ("/clusters/" +++ (id +++ ("/" +++ path)))
      → (handle_error encode location e).redirect ≡ some ("/access-denied/" +++ encode id)
  unfolding handle_error handle_response redirect_path
  handle_error-forbidden location id path e r full plain answered denied on = rw answered (
      rw denied (
        rw on
          (ap (λ o. some (redirect_path encode o)) (match_cluster-clusters id path full plain))))
