-- ===== src/Client/IndexFields.antt =====
-- frontend/src/api/client.ts, `getIndexFields`: the fields of an index, from the nested properties of
-- its mapping to one list with dotted names. `none` is the TypeError of a field whose configuration is
-- null, or of an answer that is null.
pub mod Mapping
pub mod Names
pub mod Paths
use secan.Base.{
  ℕ, suc, String, Option, none, some, List, [], ◌∷◌, ◌++◌, Bool, true, false, not, if◌then◌else◌,
  ◌===◌, ◌+++◌, truthy, decimal,
}
use secan.Json.{
  Value, null, flag, number, text, array, object, Items, nil, cons, Fields, end, field, prop, chain,
  nullish, either, is_null,
}

-- The values of the configuration are passed on as they are.
pub record FieldInfo : Type 0 where
  pub name : String
  pub field_type : Option Value
  pub analyzer : Option Value
  pub search_analyzer : Option Value
  pub normalizer : Option Value
  pub properties : Option Value
  pub searchable : Bool
  pub aggregatable : Bool
  pub stored : Bool

abbrev pub is_flag : Bool → Option Value → Bool
is_flag true (some (flag b)) = b
is_flag false (some (flag b)) = not b
is_flag b _ = false

abbrev pub is_text : String → Option Value → Bool
is_text t (some (text s)) = s === t
is_text t _ = false

unfoldable pub field_info : String → Value → FieldInfo
field_info full_name config = record {
  name = full_name;
  field_type = either (prop config "type") (some (text "object"));
  analyzer = prop config "analyzer";
  search_analyzer = prop config "search_analyzer";
  normalizer = prop config "normalizer";
  properties = prop config "properties";
  searchable = not (is_flag false (prop config "index"));
  aggregatable = not (is_text "text" (prop config "type"));
  stored = is_flag true (prop config "store");
}

abbrev pub full_name : String → String → String
full_name prefix name = if truthy prefix then prefix +++ ("." +++ name) else name

abbrev pub both : Option (List FieldInfo) → Option (List FieldInfo) → Option (List FieldInfo)
both none ys = none
both (some xs) none = none
both (some xs) (some ys) = some (xs ++ ys)

-- `Object.entries` of a text: its characters, which have no properties.
abbrev letters : String → ℕ → String → List FieldInfo
letters prefix i String.[] = []
letters prefix i (String.◌∷◌ c s) =
    field_info (full_name prefix (decimal i)) (text (String.◌∷◌ c String.[]))
    ∷ letters prefix (suc i) s

unfoldable mutual
  -- The loop of `extractFields` over the entries of an object, and over those of an array.
  pub extract_fields : String → Fields → Option (List FieldInfo)
  extract_fields prefix end = some []
  extract_fields prefix (field name config rest) =
      both (extract_field (full_name prefix name) config) (extract_fields prefix rest)

  pub extract_items : String → ℕ → Items → Option (List FieldInfo)
  extract_items prefix i nil = some []
  extract_items prefix i (cons config rest) =
      both (extract_field (full_name prefix (decimal i)) config) (extract_items prefix (suc i) rest)

  -- The body of the loop.
  pub extract_field : String → Value → Option (List FieldInfo)
  extract_field full null = none
  extract_field full (flag b) = some (field_info full (flag b) ∷ [])
  extract_field full (number n) = some (field_info full (number n) ∷ [])
  extract_field full (text t) = some (field_info full (text t) ∷ [])
  extract_field full (array xs) = some (field_info full (array xs) ∷ [])
  extract_field full (object fs) =
      both (some (field_info full (object fs) ∷ [])) (extract_nested full fs)

  -- The properties of a configuration, where there are any.
  pub extract_nested : String → Fields → Option (List FieldInfo)
  extract_nested full end = some []
  extract_nested full (field k v rest) =
      let here = extract_properties full v in
      let behind = extract_nested full rest in if k === "properties" then here else behind

  pub extract_properties : String → Value → Option (List FieldInfo)
  extract_properties full null = some []
  extract_properties full (flag b) = some []
  extract_properties full (number n) = some []
  extract_properties full (text t) = some (letters full 0 t)
  extract_properties full (array xs) = extract_items full 0 xs
  extract_properties full (object fs) = extract_fields full fs

abbrev pub properties_of : Value → String → Option Value
properties_of answer index_name =
    nullish (chain (chain (prop answer index_name) "mappings") "properties") (some (object end))

abbrev pub extract_all : Option Value → Option (List FieldInfo)
extract_all none = some []
extract_all (some v) = extract_properties "" v

unfoldable pub get_index_fields : Value → String → Option (List FieldInfo)
unfolding extract_fields
get_index_fields answer index_name =
    if is_null answer then none else extract_all (properties_of answer index_name)
