-- ===== src/CanvasView/Dots.antt =====
-- frontend/src/components/Topology/CanvasTopologyView.tsx: the shards that the layout looks up for a node.
use mathlib.Core.List.{append-nil, append_assoc}
use secan.Base.{
  ◌≡◌, refl, sym, ap, ◌∙◌, String, Option, none, some, List, [], ◌∷◌, ◌++◌, true, false, ◌&&◌,
  if◌then◌else◌, ◌===◌, or_else, keep, Bool-cases, eq_iff, inl, inr,
}
use secan.Base.Dict.{Dict, get, push, group, get-put}
use secan.Api.{NodeInfo, ShardInfo}
use secan.Canvas.{shards_of}
use secan.CanvasView.{View, is_shown, key_of, collect_shards, shards_by_node, canvas_input}

-- The shards that the filters let through under a key, and what they make of what is there.
abbrev pub shown_at : View → List ShardInfo → String → List ShardInfo
shown_at v shards k = keep (λ s. is_shown v s && (key_of s === k)) shards

abbrev extended : Option (List ShardInfo) → List ShardInfo → Option (List ShardInfo)
extended none [] = none
extended none (s ∷ ss) = some (s ∷ ss)
extended (some xs) ss = some (xs ++ ss)

extended-nil : (o : Option (List ShardInfo)) → extended o [] ≡ o
extended-nil none = refl
extended-nil (some xs) = ap some (append-nil xs)

extended-one :
    (o : Option (List ShardInfo)) (s : ShardInfo) (ss : List ShardInfo)
    → extended (some (or_else o [] ++ s ∷ [])) ss ≡ extended o (s ∷ ss)
extended-one none s ss = refl
extended-one (some xs) s ss = ap some (append_assoc xs (s ∷ []) ss)

module _ (s : ShardInfo) (acc : Dict (List ShardInfo)) (k : String) where
  get-push_here :
      (key_of s === k) ≡ true
      → get k (push (key_of s) s acc) ≡ some (or_else (get k acc) [] ++ s ∷ [])
  unfolding push
  get-push_here here =
      get-put (key_of s) k (group (key_of s) acc ++ s ∷ []) acc
      ∙ rw here (ap (λ j. some (group j acc ++ s ∷ [])) ((eq_iff (key_of s) k).0 here))

  get-push_elsewhere : (key_of s === k) ≡ false → get k (push (key_of s) s acc) ≡ get k acc
  unfolding push
  get-push_elsewhere elsewhere =
      get-put (key_of s) k (group (key_of s) acc ++ s ∷ []) acc ∙ rw elsewhere refl

get-collect_shards :
    (v : View) (shards : List ShardInfo) (acc : Dict (List ShardInfo)) (k : String)
    → get k (collect_shards v shards acc) ≡ extended (get k acc) (shown_at v shards k)
unfolding collect_shards
get-collect_shards v [] acc k = sym (extended-nil (get k acc))
get-collect_shards v (s ∷ rest) acc k = elim (Bool-cases (is_shown v s)) [
  | inl shown ↦ elim (Bool-cases (key_of s === k)) [
    | inl here ↦ rw shown (
        rw here (
          get-collect_shards v rest (push (key_of s) s acc) k
          ∙ ap (λ o. extended o (shown_at v rest k)) (get-push_here s acc k here)
          ∙ extended-one (get k acc) s (shown_at v rest k)))
    | inr elsewhere ↦ rw shown (
        rw elsewhere (
          get-collect_shards v rest (push (key_of s) s acc) k
          ∙ ap (λ o. extended o (shown_at v rest k)) (get-push_elsewhere s acc k elsewhere)))
  ]
  | inr hidden ↦ rw hidden (get-collect_shards v rest acc k)
]

-- The shards under the name, or those under the id if there are none.
abbrev pub name_or_id : List ShardInfo → List ShardInfo → List ShardInfo
name_or_id [] by_id = by_id
name_or_id (s ∷ ss) by_id = s ∷ ss

or_else-extended :
    (xs ys : List ShardInfo)
    → or_else (extended none xs) (or_else (extended none ys) []) ≡ name_or_id xs ys
or_else-extended [] [] = refl
or_else-extended [] (y ∷ ys) = refl
or_else-extended (x ∷ xs) ys = refl

-- The layout looks up for a node the shards that pass the filters and refer to it by its name, in their
-- order; if there are none, those that refer to it by its id. Far out, it has none.
pub shards_of-shown :
    (v : View) (node : NodeInfo)
    → shards_of (canvas_input v) node ≡ (
        if v.is_l2
        then name_or_id
            (shown_at v (or_else v.all_shards []) node.name)
            (shown_at v (or_else v.all_shards []) node.id)
        else [])
unfolding shards_of canvas_input shards_by_node get is_shown
shards_of-shown v node = elim (Bool-cases v.is_l2) [
  | inl near ↦
      let shards = or_else v.all_shards [] in
      rw near (
        ap (λ o. or_else o (or_else (get node.id (collect_shards v shards [])) []))
          (get-collect_shards v shards [] node.name)
        ∙ ap (λ o. or_else (extended none (shown_at v shards node.name)) (or_else o []))
            (get-collect_shards v shards [] node.id)
        ∙ or_else-extended (shown_at v shards node.name) (shown_at v shards node.id))
  | inr far ↦ rw far refl
]
