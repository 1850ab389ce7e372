-- ===== src/Base/Keys.antt =====
-- The `Set` of strings, as a list without repetitions in the order of insertion.
use secan.Base.Tests.{if◌then◌else◌}
use secan.Base.Text.{◌===◌, includes}
use Prim.Native.String.{String}
use mathlib.Core.Path.{◌≡◌, refl}
use mathlib.Core.Bool.{false, ◌||◌, ◌&&◌, not}
use mathlib.Core.List.{List, [], ◌∷◌}
use native.Mathlib.Omega.{arith}
use text.Mathlib.TextEquality.{eq_iff}

-- No string stands twice.
abbrev pub Distinct : List String → Type 0
Distinct [] = Unit
Distinct (x ∷ xs) = (includes xs x ≡ false) × Distinct xs

unfoldable pub add : String → List String → List String
add s [] = s ∷ []
add s (x ∷ xs) = if x === s then x ∷ xs else x ∷ add s xs

unfoldable pub delete : String → List String → List String
delete s [] = []
delete s (x ∷ xs) = if x === s then xs else x ∷ delete s xs

-- `new Set(array)`.
unfoldable pub from_array : List String → List String → List String
from_array acc [] = acc
from_array acc (x ∷ xs) = from_array (add x acc) xs

pub includes-add :
    (s t : String) (xs : List String) → includes (add s xs) t ≡ (s === t || includes xs t)
unfolding add
includes-add s t [] = refl
includes-add s t (x ∷ xs) = ground (arith, eq_iff x s, eq_iff x t, eq_iff s t, includes-add s t xs)

pub add-Distinct : (s : String) (xs : List String) → Distinct xs → Distinct (add s xs)
unfolding add
add-Distinct s [] h = (refl, tt)
add-Distinct s (x ∷ xs) h =
    ground (arith, eq_iff x s, eq_iff s x, includes-add s x xs, add-Distinct s xs h.1)

pub includes-delete :
    (s t : String) (xs : List String)
    → Distinct xs
    → includes (delete s xs) t ≡ (not (s === t) && includes xs t)
unfolding delete
includes-delete s t [] h = ground arith
includes-delete s t (x ∷ xs) h =
    ground (arith, eq_iff x s, eq_iff x t, eq_iff s t, includes-delete s t xs h.1)

pub delete-Distinct : (s : String) (xs : List String) → Distinct xs → Distinct (delete s xs)
unfolding delete
delete-Distinct s [] h = tt
delete-Distinct s (x ∷ xs) h = ground (arith, includes-delete s x xs h.1, delete-Distinct s xs h.1)

pub includes-from_array :
    (acc xs : List String) (t : String)
    → includes (from_array acc xs) t ≡ (includes acc t || includes xs t)
unfolding from_array
includes-from_array acc [] t = ground arith
includes-from_array acc (x ∷ xs) t =
    ground (arith, includes-from_array (add x acc) xs t, includes-add x t acc)

pub from_array-Distinct : (acc xs : List String) → Distinct acc → Distinct (from_array acc xs)
unfolding from_array
from_array-Distinct acc [] h = h
from_array-Distinct acc (x ∷ xs) h = from_array-Distinct (add x acc) xs (add-Distinct x acc h)
