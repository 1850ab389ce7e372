-- ===== src/Client/IndexFields/Paths.antt =====
-- frontend/src/api/client.ts, `getIndexFields`: the list against the paths of the mapping.
use secan.Base.{
  ◌≡◌, refl, sym, ap, ◌∙◌, String, none, some, List, [], ◌∷◌, ◌++◌, true, false, ◌⊎◌, inl, inr,
  ◌===◌, eq_iff, truthy, join, All, All-append, All-imp, Bool-cases, subst,
}
use secan.Json.{
  is_null, Value, null, flag, number, text, array, object, Fields, end, field, lookup, prop,
}
use secan.Client.IndexFields.{
  FieldInfo, field_info, full_name, extract_fields, extract_field, extract_nested,
  extract_properties, properties_of, get_index_fields,
}
use secan.Client.IndexFields.Mapping.{
  IsMapping, IsConfig, IsNested, IsProperties, mapping_of, config_at, dotted, Has, Lists,
}
use secan.Client.IndexFields.Names.{dotted-join}

-- The same of the list of one configuration, which is in it itself.
record ListsField (full : String) (v : Value) (infos : List FieldInfo) : Type 0 where
  head : Has (field_info full v) infos
  complete :
      (name : String) (below : List String) (config : Value)
      → config_at (mapping_of (prop v "properties")) name below ≡ some config
      → Has (field_info (dotted full name below) config) infos
  sound :
      All
        (λ (info : FieldInfo).
          (info ≡ field_info full v)
          ⊎ ((name : String) × (below : List String) × (config : Value) × (config_at
                  (mapping_of (prop v "properties"))
                  name
                  below
                ≡ some config)
              × (info ≡ field_info (dotted full name below) config)))
        infos

Has-left : (x : FieldInfo) (xs ys : List FieldInfo) → Has x xs → Has x (xs ++ ys)
Has-left x [] ys h = elim h [ ]
Has-left x (y ∷ xs) ys (inl e) = inl e
Has-left x (y ∷ xs) ys (inr h) = inr (Has-left x xs ys h)

Has-right : (x : FieldInfo) (xs ys : List FieldInfo) → Has x ys → Has x (xs ++ ys)
Has-right x [] ys h = h
Has-right x (y ∷ xs) ys h = inr (Has-right x xs ys h)

config_at-end : (name : String) (below : List String) → config_at end name below ≡ none
unfolding config_at
config_at-end name [] = refl
config_at-end name (b ∷ below) = config_at-end b below

Lists-end : (prefix : String) → Lists prefix end []
Lists-end prefix = record {
  complete = λ name below config h. cc (h, config_at-end name below);
  sound = tt;
}

module _ (name : String) (config : Value) (rest : Fields) where
  -- A path into the first field, and one past it.
  config_at-below :
      (b : String) (below : List String)
      → config_at (field name config rest) name (b ∷ below)
        ≡ config_at (mapping_of (prop config "properties")) b below
  unfolding config_at
  config_at-below b below = rw ((eq_iff name name).1 refl) refl

  config_at-past :
      (n : String) (below : List String)
      → (name === n) ≡ false
      → config_at (field name config rest) n below ≡ config_at rest n below
  unfolding config_at
  config_at-past n [] other = rw other refl
  config_at-past n (b ∷ below) other = rw other refl

  config_at-absent :
      (n : String) (below : List String) → lookup n rest ≡ none → config_at rest n below ≡ none
  unfolding config_at
  config_at-absent n [] h = h
  config_at-absent n (b ∷ below) h = rw h (config_at-end b below)

  config_at-ne :
      (n : String) (below : List String) (c : Value)
      → lookup name rest ≡ none
      → config_at rest n below ≡ some c
      → (name === n) ≡ false
  config_at-ne n below c absent there = elim (Bool-cases (name === n)) [
    | inl same ↦
        let e : name ≡ n = (eq_iff name n).0 same in
        absurd (cc (there, config_at-absent n below (ap (λ k. lookup k rest) (sym e) ∙ absent)))
    | inr other ↦ other
  ]

  module _ (prefix : String) (xs ys : List FieldInfo)
      (first : ListsField (full_name prefix name) config xs) (others : Lists prefix rest ys)
      (absent : lookup name rest ≡ none) where
    complete-first :
        (below : List String) (c : Value)
        → config_at (field name config rest) name below ≡ some c
        → Has (field_info (dotted prefix name below) c) (xs ++ ys)
    unfolding dotted config_at
    complete-first [] c h =
        let at : config_at (field name config rest) name [] ≡ some config =
          rw ((eq_iff name name).1 refl) refl in
        let e : config ≡ c = cc (sym at ∙ h) in
        Has-left _ xs ys (subst (λ k. Has (field_info (full_name prefix name) k) xs) e first.head)
    complete-first (b ∷ below) c h =
        Has-left _ xs ys (first.complete b below c (sym (config_at-below b below) ∙ h))

    complete-field :
        (n : String) (below : List String) (c : Value)
        → config_at (field name config rest) n below ≡ some c
        → Has (field_info (dotted prefix n below) c) (xs ++ ys)
    complete-field n below c h = elim (Bool-cases (name === n)) [
      | inl same ↦
          subst
            (λ k.
              config_at (field name config rest) k below ≡ some c
              → Has (field_info (dotted prefix k below) c) (xs ++ ys))
            ((eq_iff name n).0 same) (complete-first below c) h
      | inr other ↦
          Has-right _ xs ys (others.complete n below c (sym (config_at-past n below other) ∙ h))
    ]

    sound-first :
        (info : FieldInfo)
        → (info ≡ field_info (full_name prefix name) config)
          ⊎ ((n : String) × (below : List String) × (c : Value) × (config_at
                  (mapping_of (prop config "properties"))
                  n
                  below
                ≡ some c)
              × (info ≡ field_info (dotted (full_name prefix name) n below) c))
        → (n : String) × (below : List String) × (c : Value) × (config_at
              (field name config rest)
              n
              below
            ≡ some c)
          × (info ≡ field_info (dotted prefix n below) c)
    unfolding config_at dotted
    sound-first info (inl e) = (name, [], config, rw ((eq_iff name name).1 refl) refl, e)
    sound-first info (inr (n, below, c, at, e)) =
        (name, n ∷ below, c, config_at-below n below ∙ at, e)

    sound-others :
        (info : FieldInfo)
        → (n : String) × (below : List String) × (c : Value) × (config_at rest n below ≡ some c)
          × (info ≡ field_info (dotted prefix n below) c)
        → (n : String) × (below : List String) × (c : Value) × (config_at
              (field name config rest)
              n
              below
            ≡ some c)
          × (info ≡ field_info (dotted prefix n below) c)
    sound-others info (n, below, c, at, e) =
        (n, below, c, config_at-past n below (config_at-ne n below c absent at) ∙ at, e)

    Lists-field : Lists prefix (field name config rest) (xs ++ ys)
    Lists-field = record {
      complete = complete-field;
      sound =
          All-append _ xs ys (All-imp sound-first xs first.sound)
            (All-imp sound-others ys others.sound);
    }

-- The list of a configuration that is not an object, and of one that is.
ListsField-leaf :
    (full : String) (v : Value)
    → prop v "properties" ≡ none
    → ListsField full v (field_info full v ∷ [])
ListsField-leaf full v h = record {
  head = inl refl;
  complete = λ name below c at.
      absurd (cc (at, config_at-end name below, ap (λ o. config_at (mapping_of o) name below) h));
  sound = (inl refl, tt);
}

ListsField-nested :
    (full : String) (v : Value) (ys : List FieldInfo)
    → Lists full (mapping_of (prop v "properties")) ys
    → ListsField full v (field_info full v ∷ ys)
ListsField-nested full v ys l = record {
  head = inl refl;
  complete = λ name below c at. inr (l.complete name below c at);
  sound = (inl refl, All-imp (λ info s. inr s) ys l.sound);
}

mutual
  unfolding extract_fields extract_field extract_nested extract_properties IsMapping IsConfig
      IsNested IsProperties

  extract_fields-list :
      (prefix : String) (fs : Fields)
      → IsMapping fs
      → (infos : List FieldInfo) × (extract_fields prefix fs ≡ some infos) × Lists prefix fs infos
  extract_fields-list prefix end h = ([], refl, Lists-end prefix)
  extract_fields-list prefix (field name config rest) h =
      let (xs, e, first) = extract_field-list (full_name prefix name) config h.0 in
      let (ys, k, others) = extract_fields-list prefix rest h.2 in
      (xs ++ ys, rw (e, k) refl, Lists-field name config rest prefix xs ys first others h.1)

  extract_field-list :
      (full : String) (v : Value)
      → IsConfig v
      → (infos : List FieldInfo) × (extract_field full v ≡ some infos) × ListsField full v infos
  extract_field-list full null h = elim h [ ]
  extract_field-list full (flag b) h = (_, refl, ListsField-leaf full (flag b) refl)
  extract_field-list full (number n) h = (_, refl, ListsField-leaf full (number n) refl)
  extract_field-list full (text t) h = (_, refl, ListsField-leaf full (text t) refl)
  extract_field-list full (array xs) h = (_, refl, ListsField-leaf full (array xs) refl)
  extract_field-list full (object fs) h =
      let (ys, e, l) = extract_nested-list full fs h in
      (field_info full (object fs) ∷ ys, rw e refl, ListsField-nested full (object fs) ys l)

  extract_nested-list :
      (full : String) (fs : Fields)
      → IsNested fs
      → (infos : List FieldInfo) × (extract_nested full fs ≡ some infos)
        × Lists full (mapping_of (lookup "properties" fs)) infos
  extract_nested-list full end h = ([], refl, Lists-end full)
  extract_nested-list full (field k v rest) h = elim (Bool-cases (k === "properties")) [
    | inl here ↦ rw (here, extract_nested) (extract_properties-list full v (h.0 here))
    | inr past ↦ rw (past, extract_nested) (extract_nested-list full rest h.1)
  ]

  extract_properties-list :
      (full : String) (v : Value)
      → IsProperties v
      → (infos : List FieldInfo) × (extract_properties full v ≡ some infos)
        × Lists full (mapping_of (some v)) infos
  extract_properties-list full null h = elim h [ ]
  extract_properties-list full (flag b) h = elim h [ ]
  extract_properties-list full (number n) h = elim h [ ]
  extract_properties-list full (text t) h = elim h [ ]
  extract_properties-list full (array xs) h = elim h [ ]
  extract_properties-list full (object fs) h = extract_fields-list full fs h

-- For an answer that is not null and has properties of the index, and these form a mapping as
-- Elasticsearch sends it, the list of fields is there, and it is complete and sound: every configuration
-- at a path of the mapping is in it under its dotted name, and each of its entries is one of these. The
-- name of a path is its names with dots between them, if none is empty.
pub get_index_fields-Lists :
    (answer : Value) (index_name : String) (fs : Fields)
    → is_null answer ≡ false
    → properties_of answer index_name ≡ some (object fs)
    → IsMapping fs
    → (infos : List FieldInfo) × (get_index_fields answer index_name ≡ some infos)
      × Lists "" fs infos
      × ((name : String) (below : List String)
          → All (λ k. truthy k ≡ true) (name ∷ below)
          → dotted "" name below ≡ join "." (name ∷ below))
unfolding get_index_fields extract_properties
get_index_fields-Lists answer index_name fs there has h =
    let (infos, e, l) = extract_fields-list "" fs h in
    (infos, rw there (rw has e), l, λ name below full. dotted-join "" name below full)
