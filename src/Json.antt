-- ===== src/Json.antt =====
-- The values that `JSON.parse` and the server's answers give, read the way frontend/src reads them. An
-- object has its fields in the order of `Object.entries`, each name once. `undefined` is `none` of an
-- option; fields that objects of the language inherit are not read.
use secan.Base.{
  ℕ, String, Option, none, some, Bool, true, false, not, ◌&&◌, if◌then◌else◌, ltb, ◌===◌, truthy,
}

-- A number as a fraction with its sign; the lower part is not 0.
pub record Number : Type 0 where
  pub negative : Bool
  pub over : ℕ
  pub under : ℕ

abbrev pub whole : ℕ → Number
whole n = record { negative = false; over = n; under = 1 }

abbrev pub is_positive : Number → Bool
is_positive n = not n.negative && ltb 0 n.over

mutual
  pub data Value : Type 0 where
    null : Value
    flag : Bool → Value
    number : Number → Value
    text : String → Value
    array : Items → Value
    object : Fields → Value

  pub data Items : Type 0 where
    nil : Items
    cons : Value → Items → Items

  pub data Fields : Type 0 where
    end : Fields
    field : String → Value → Fields → Fields

abbrev pub lookup : String → Fields → Option Value
lookup k end = none
lookup k (field j v rest) = if j === k then some v else lookup k rest

-- `v[k]` of a value that is not null, and `v?.[k]` of any.
abbrev pub prop : Value → String → Option Value
prop (object fs) k = lookup k fs
prop _ k = none

abbrev pub chain : Option Value → String → Option Value
chain none k = none
chain (some v) k = prop v k

-- `a ?? b` and `a || b`.
abbrev pub nullish : Option Value → Option Value → Option Value
nullish none b = b
nullish (some null) b = b
nullish (some v) b = some v

abbrev pub is_true : Option Value → Bool
is_true none = false
is_true (some null) = false
is_true (some (flag b)) = b
is_true (some (number n)) = ltb 0 n.over
is_true (some (text t)) = truthy t
is_true (some (array xs)) = true
is_true (some (object fs)) = true

abbrev pub either : Option Value → Option Value → Option Value
either a b = if is_true a then a else b

-- `typeof v === 'object'` of a value that is not null.
abbrev pub is_object : Value → Bool
is_object (array xs) = true
is_object (object fs) = true
is_object _ = false

abbrev pub is_null : Value → Bool
is_null null = true
is_null _ = false
