-- ===== src/Base/Dict.antt =====
-- The `Map` with string keys, as an association list in the order of insertion.
use secan.Base.Tests.{if◌then◌else◌, or_else}
use secan.Base.Text.{◌===◌}
use Prim.Native.String.{String}
use mathlib.Core.Path.{◌≡◌, refl}
use mathlib.Core.List.{List, [], ◌∷◌, ◌++◌}
use mathlib.Core.Option.{Option, none, some}
use native.Mathlib.Omega.{arith}
use text.Mathlib.TextEquality.{eq_iff}

abbrev pub Dict {ℓ} : Type ℓ → Type ℓ
Dict V = List (String × V)

module _ {ℓ} {V : Type ℓ} where
  unfoldable pub get : String → Dict V → Option V
  get k [] = none
  get k ((j, v) ∷ m) = if j === k then some v else get k m

  -- `set` replaces the value of a key in place, or adds the key at the end.
  unfoldable pub put : String → V → Dict V → Dict V
  put k v [] = (k, v) ∷ []
  put k v ((j, w) ∷ m) = if j === k then (j, v) ∷ m else (j, w) ∷ put k v m

  pub get-put :
      (k j : String) (v : V) (m : Dict V)
      → get j (put k v m) ≡ (if k === j then some v else get j m)
  unfolding get put
  get-put k j v [] = refl
  get-put k j v ((i, w) ∷ m) = ground (arith, eq_iff k j, eq_iff i k, eq_iff i j, get-put k j v m)

module _ {ℓ} {V : Type ℓ} where
  -- The group of a key; a missing key has the empty group.
  abbrev pub group : String → Dict (List V) → List V
  group k m = or_else (get k m) []

  -- Get or create the array of a key, and push a value to it.
  unfoldable pub push : String → V → Dict (List V) → Dict (List V)
  push k v m = put k (group k m ++ v ∷ []) m

  pub group-push :
      (k j : String) (v : V) (m : Dict (List V))
      → group j (push k v m) ≡ (if k === j then group j m ++ v ∷ [] else group j m)
  unfolding push
  group-push k j v m = ground (arith, eq_iff k j, get-put k j (group k m ++ v ∷ []) m)
