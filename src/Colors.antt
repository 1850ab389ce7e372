-- ===== src/Colors.antt =====
-- frontend/src/utils/colors.ts, with the colours of frontend/src/utils/heap.ts and of
-- `getLoadColor` in frontend/src/utils/formatters.ts: the colours of states, loads and indices. The
-- hash of an index name is a signed 32-bit number, kept as its bits. Load averages are in hundredths;
-- a heap percentage is compared as the fraction that it is. Characters outside the basic plane count
-- as one.
pub mod Naming
use Prim.Native.Char.{Char, code}
use Prim.Native.String.{[], ◌∷◌}
use mathlib.Core.List.{[], ◌∷◌}
use Prim.Native.Nat.{bit_xor, ◌^◌}
use secan.Base.{
  ℕ, suc, ◌+◌, ◌*◌, ◌-◌, ◌%◌, String, Option, none, some, List, Bool, true, false, not, ◌&&◌, ◌||◌,
  if◌then◌else◌, ltb, leb, ◌==◌, ◌===◌, ◌+++◌, truthy, get_elem?, or_else, decimal, strip_prefix,
  is_some,
}

unfoldable pub get_health_color : String → String
get_health_color health =
    if health === "green"
    then "green"
    else if health === "yellow"
    then "yellow"
    else if health === "red"
    then "red"
    else "gray"

unfoldable pub get_shard_state_color : String → String
get_shard_state_color state =
    if state === "STARTED"
    then "green"
    else if state === "UNASSIGNED"
    then "red"
    else if state === "INITIALIZING"
    then "yellow"
    else if state === "RELOCATING"
    then "violet"
    else "gray"

unfoldable pub get_unassigned_shard_color : Bool → String
get_unassigned_shard_color is_primary =
    if is_primary then "var(--mantine-color-red-6)" else "var(--mantine-color-red-4)"

unfoldable pub get_shard_dot_color : String → String
get_shard_dot_color state =
    if state === "STARTED"
    then "var(--mantine-color-green-6)"
    else if state === "INITIALIZING"
    then "var(--mantine-color-yellow-6)"
    else if state === "RELOCATING"
    then "var(--mantine-color-violet-6)"
    else if state === "UNASSIGNED"
    then "var(--mantine-color-red-6)"
    else "var(--mantine-color-gray-6)"

unfoldable pub get_load_color : Option ℕ → String
get_load_color none = "dimmed"
get_load_color (some load) =
    if ltb load 400 then "green" else if ltb load 600 then "yellow" else "red"

-- A percentage as a fraction.
pub record Percent : Type 0 where
  pub over : ℕ
  pub under : ℕ

-- `computeHeapPercent`, clamped to 100.
unfoldable pub compute_heap_percent : Option ℕ → Option ℕ → Percent
compute_heap_percent none heap_max = record { over = 0; under = 1 }
compute_heap_percent (some heap_used) none = record { over = 0; under = 1 }
compute_heap_percent (some heap_used) (some heap_max) =
    if heap_max == 0
    then record { over = 0; under = 1 }
    else if ltb heap_max heap_used
    then record { over = 100; under = 1 }
    else record { over = heap_used * 100; under = heap_max }

unfoldable pub get_heap_color : Percent → String
get_heap_color p =
    if ltb p.over (70 * p.under)
    then "green"
    else if ltb p.over (85 * p.under)
    then "yellow"
    else "red"

abbrev pub is_digit : ℕ → Bool
is_digit c = leb 48 c && leb c 57

-- How the rest of a text may go on in `-\d+([.-]\d+)*`: a digit must follow, or a digit, a separator
-- or the end.
pub data Expecting : Type 0 where
  first_digit more : Expecting

unfoldable pub is_numeric : Expecting → String → Bool
is_numeric first_digit [] = false
is_numeric first_digit (c ∷ s) = is_digit (code c) && is_numeric more s
is_numeric more [] = true
is_numeric more (c ∷ s) =
    let digits = is_numeric more s in
    let separated = is_numeric first_digit s in
    if is_digit (code c) then digits else (code c == b'-' || code c == b'.') && separated

-- Matches `(?:-\d+(?:[.-]\d+)*)+$`.
unfoldable pub is_numeric_suffix : String → Bool
unfolding is_numeric
is_numeric_suffix [] = false
is_numeric_suffix (c ∷ s) = code c == b'-' && is_numeric first_digit s

-- `replace` of the first match by the empty text.
unfoldable pub without_suffix : String → String
unfolding is_numeric_suffix
without_suffix [] = ""
without_suffix (c ∷ s) =
    let rest = without_suffix s in if is_numeric_suffix (c ∷ s) then "" else c ∷ rest

-- The name that is hashed, where `name` is the index name without a leading dot.
unfoldable pub working_name : String → String
unfolding without_suffix
working_name name = let working = without_suffix name in if truthy working then working else name

abbrev pub dotted : Bool → String → String
dotted separate working = if separate then "." +++ working else working

-- The text without a leading dot, if it has one.
unfoldable pub key_of : Bool → String → String
unfolding working_name
key_of separate index_name = elim (strip_prefix "." index_name) [
  | some name ↦ dotted separate (working_name name)
  | none ↦ working_name index_name
]

unfoldable pub get_index_grouping_key : String → Bool → String
unfolding key_of
get_index_grouping_key index_name separate =
    if truthy index_name then key_of separate index_name else ""

abbrev word : ℕ
word = 4294967296

unfoldable pub hash_from : ℕ → String → ℕ
hash_from hash [] = hash
hash_from hash (c ∷ s) = hash_from (bit_xor (hash * 33 % word) (code c)) s

-- `Math.abs` of the signed number.
unfoldable pub magnitude : ℕ → ℕ
magnitude bits = if ltb bits 2147483648 then bits else word - bits

abbrev base_hues : List ℕ
base_hues = 12 ∷ 8 ∷ 340 ∷ 200 ∷ 170 ∷ 30 ∷ 260 ∷ 210 ∷ []

unfoldable pub hue : String → ℕ
unfolding hash_from magnitude
hue key = or_else (get_elem? base_hues (magnitude (hash_from 5381 key) % 8)) 0

unfoldable pub hsl : String → String
unfolding hue
hsl key = "hsl(" +++ decimal (hue key) +++ ", 50%, 88%)"

unfoldable pub get_color_for_index : String → Bool → String
unfolding key_of hsl
get_color_for_index index_name separate =
    if truthy index_name then hsl (key_of separate index_name) else "var(--mantine-color-gray-6)"

unfoldable pub get_shard_type_color : Bool → String
get_shard_type_color is_primary = if is_primary then "blue" else "gray"
