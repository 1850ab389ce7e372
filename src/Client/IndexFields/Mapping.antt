-- ===== src/Client/IndexFields/Mapping.antt =====
-- frontend/src/api/client.ts, `getIndexFields`: what a mapping is, and the paths in it.
use secan.Base.{◌≡◌, String, Option, none, some, List, [], ◌∷◌, true, ◌⊎◌, ◌===◌, All}
use secan.Json.{Value, null, flag, number, text, array, object, Fields, end, field, lookup, chain}
use secan.Client.IndexFields.{FieldInfo, field_info, full_name}

-- What Elasticsearch sends: each configuration is there, properties are objects, and no name of a
-- mapping stands twice.
unfoldable mutual
  pub IsMapping : Fields → Type 0
  IsMapping end = Unit
  IsMapping (field name config rest) = IsConfig config × (lookup name rest ≡ none) × IsMapping rest

  pub IsConfig : Value → Type 0
  IsConfig null = ⊥
  IsConfig (flag b) = Unit
  IsConfig (number n) = Unit
  IsConfig (text t) = Unit
  IsConfig (array xs) = Unit
  IsConfig (object fs) = IsNested fs

  pub IsNested : Fields → Type 0
  IsNested end = Unit
  IsNested (field k v rest) = ((k === "properties") ≡ true → IsProperties v) × IsNested rest

  pub IsProperties : Value → Type 0
  IsProperties null = ⊥
  IsProperties (flag b) = ⊥
  IsProperties (number n) = ⊥
  IsProperties (text t) = ⊥
  IsProperties (array xs) = ⊥
  IsProperties (object fs) = IsMapping fs

-- The configuration at a path, a name and the names below it.
abbrev pub mapping_of : Option Value → Fields
mapping_of (some (object fs)) = fs
mapping_of _ = end

unfoldable pub config_at : Fields → String → List String → Option Value
config_at fs name [] = lookup name fs
config_at fs name (below ∷ rest) =
    config_at (mapping_of (chain (lookup name fs) "properties")) below rest

-- The dotted name of a path behind a prefix.
unfoldable pub dotted : String → String → List String → String
dotted prefix name [] = full_name prefix name
dotted prefix name (below ∷ rest) = dotted (full_name prefix name) below rest

abbrev pub Has : FieldInfo → List FieldInfo → Type 0
Has x [] = ⊥
Has x (y ∷ ys) = (y ≡ x) ⊎ Has x ys

-- Whatever has a configuration at some path of the mapping is in the list, and nothing else is.
pub record Lists (prefix : String) (fs : Fields) (infos : List FieldInfo) : Type 0 where
  pub complete :
      (name : String) (below : List String) (config : Value)
      → config_at fs name below ≡ some config
      → Has (field_info (dotted prefix name below) config) infos
  pub sound :
      All
        (λ (info : FieldInfo).
          (name : String) × (below : List String) × (config : Value) × (config_at fs name below
            ≡ some config)
          × (info ≡ field_info (dotted prefix name below) config))
        infos
