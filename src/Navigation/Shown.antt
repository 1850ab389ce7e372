-- ===== src/Navigation/Shown.antt =====
-- frontend/src/hooks/useClusterNavigation.ts: the modal that is shown, as a machine of its own.
use secan.Base.{
  ◌≡◌, refl, ap, ◌∙◌, String, Option, none, some, List, [], ◌∷◌, true, false, truthy, given,
  includes, All, if◌then◌else◌, ◌===◌, eq_iff, arith,
}
use secan.Base.Dict.{Dict, get}
use secan.Navigation.{
  delete_param, set_param, ActiveModal, node, index, shard, first_modal, active_modal,
  navigate_to_node, navigate_to_index, navigate_to_shard, close_modal, index_tab, Navigation,
  to_node, to_index, to_shard, closes, navigate, run,
}

get-delete_param :
    (k j : String) (m : Dict String)
    → get j (delete_param k m) ≡ (if k === j then none else get j m)
unfolding get delete_param
get-delete_param k j [] = ground arith
get-delete_param k j ((i, w) ∷ m) =
    ground (arith, eq_iff k j, eq_iff i k, eq_iff i j, get-delete_param k j m)

get-set_param :
    (k j v : String) (m : Dict String)
    → get j (set_param k v m) ≡ (if k === j then some v else get j m)
unfolding get set_param
get-set_param k j v [] = refl
get-set_param k j v ((i, w) ∷ m) =
    ground
      (arith, eq_iff k j, eq_iff i k, eq_iff i j, get-delete_param k j m, get-set_param k j v m)

-- What is shown after a navigation: a shard is not shown over a node or an index.
unfoldable pub show_next : Navigation → Option ActiveModal → Option ActiveModal
show_next (to_node id) shown = some (node id)
show_next (to_index name section) shown = some (index name)
show_next (to_shard id) none = some (shard id)
show_next (to_shard id) (some (node n)) = some (node n)
show_next (to_shard id) (some (index n)) = some (index n)
show_next (to_shard id) (some (shard n)) = some (shard id)
show_next closes shown = none

unfoldable pub show_all : List Navigation → Option ActiveModal → Option ActiveModal
unfolding show_next
show_all [] shown = shown
show_all (a ∷ rest) shown = show_all rest (show_next a shown)

-- The parameters of the modals.
abbrev pub modal_params : List String
modal_params = "nodeModal" ∷ "indexModal" ∷ "indexTab" ∷ "shardModal" ∷ []

-- The ids and names are not empty.
abbrev pub IsNamed : Navigation → Type 0
IsNamed (to_node id) = truthy id ≡ true
IsNamed (to_index name section) = truthy name ≡ true
IsNamed (to_shard id) = truthy id ≡ true
IsNamed closes = Unit

given-truthy : (s : String) → truthy s ≡ true → given (some s) ≡ some s
given-truthy s h = rw h refl

first_modal-shard :
    (a b c : Option String) (id : String)
    → first_modal a b (some id) ≡ show_next (to_shard id) (first_modal a b c)
unfolding show_next
first_modal-shard (some x) b c id = refl
first_modal-shard none (some x) c id = refl
first_modal-shard none none (some x) id = refl
first_modal-shard none none none id = refl

get-index_tab :
    (section : Option String) (k : String) (m : Dict String)
    → ("indexTab" === k) ≡ false
    → get k (index_tab section m) ≡ get k m
get-index_tab none k m other = get-delete_param "indexTab" k m ∙ rw other refl
get-index_tab (some tab) k m other = get-set_param "indexTab" k tab m ∙ rw other refl

module _ (p : Dict String) where
  active_modal-to_node :
      (id : String) → truthy id ≡ true → active_modal (navigate_to_node id p) ≡ some (node id)
  unfolding active_modal navigate_to_node
  active_modal-to_node id h = rw (get-set_param "nodeModal" "nodeModal" id p, h) refl

  active_modal-to_shard :
      (id : String)
      → truthy id ≡ true
      → active_modal (navigate_to_shard id p) ≡ show_next (to_shard id) (active_modal p)
  unfolding active_modal navigate_to_shard
  active_modal-to_shard id h =
      rw
        (
          get-set_param "shardModal" "nodeModal" id p,
          get-set_param "shardModal" "indexModal" id p,
          get-set_param "shardModal" "shardModal" id p,
          h,
        )
        (first_modal-shard _ _ _ id)

  active_modal-to_index :
      (name : String) (section : Option String)
      → truthy name ≡ true
      → active_modal (navigate_to_index name section p) ≡ some (index name)
  unfolding active_modal navigate_to_index
  active_modal-to_index name section h =
      let named = set_param "indexModal" name p in
      let tabbed = index_tab (given section) named in
      let without_node = delete_param "nodeModal" tabbed in
      rw
        (
          get-delete_param "shardModal" "nodeModal" without_node,
          get-delete_param "nodeModal" "nodeModal" tabbed,
          get-delete_param "shardModal" "indexModal" without_node,
          get-delete_param "nodeModal" "indexModal" tabbed,
          get-index_tab (given section) "indexModal" named refl,
          get-set_param "indexModal" "indexModal" name p,
          h,
        )
        refl

  active_modal-close_modal : active_modal (close_modal p) ≡ none
  unfolding active_modal close_modal
  active_modal-close_modal =
      let a = delete_param "nodeModal" p in
      let b = delete_param "indexModal" a in
      let c = delete_param "indexTab" b in
      rw
        (
          get-delete_param "shardModal" "nodeModal" c,
          get-delete_param "indexTab" "nodeModal" b,
          get-delete_param "indexModal" "nodeModal" a,
          get-delete_param "nodeModal" "nodeModal" p,
          get-delete_param "shardModal" "indexModal" c,
          get-delete_param "indexTab" "indexModal" b,
          get-delete_param "indexModal" "indexModal" a,
          get-delete_param "shardModal" "shardModal" c,
        )
        refl

active_modal-navigate :
    (a : Navigation) (p : Dict String)
    → IsNamed a
    → active_modal (navigate a p) ≡ show_next a (active_modal p)
unfolding navigate show_next
active_modal-navigate (to_node id) p h = active_modal-to_node p id h
active_modal-navigate (to_index name section) p h = active_modal-to_index p name section h
active_modal-navigate (to_shard id) p h = active_modal-to_shard p id h
active_modal-navigate closes p h = active_modal-close_modal p

get-navigate :
    (a : Navigation) (p : Dict String) (k : String)
    → includes modal_params k ≡ false
    → get k (navigate a p) ≡ get k p
unfolding navigate navigate_to_node navigate_to_index navigate_to_shard close_modal
get-navigate (to_node id) p k h = ground (arith, h, get-set_param "nodeModal" k id p)
get-navigate (to_index name section) p k h =
    let named = set_param "indexModal" name p in
    let tabbed = index_tab (given section) named in
    ground (
      arith,
      h,
      get-delete_param "shardModal" k (delete_param "nodeModal" tabbed),
      get-delete_param "nodeModal" k tabbed,
      get-index_tab (given section) k named,
      get-set_param "indexModal" k name p,
    )
get-navigate (to_shard id) p k h = ground (arith, h, get-set_param "shardModal" k id p)
get-navigate closes p k h =
    let a = delete_param "nodeModal" p in
    let b = delete_param "indexModal" a in
    ground (
      arith,
      h,
      get-delete_param "shardModal" k (delete_param "indexTab" b),
      get-delete_param "indexTab" k b,
      get-delete_param "indexModal" k a,
      get-delete_param "nodeModal" k p,
    )

-- What is shown is a machine of its own: after any navigations with ids that are not empty, the
-- active modal follows from the one before them alone, each node and index taking its place, a shard
-- only that of no modal or of a shard, and a close leaving none. All parameters but the four of the
-- modals keep their values.
pub active_modal-run :
    (actions : List Navigation) (p : Dict String)
    → All IsNamed actions
    → (active_modal (run actions p) ≡ show_all actions (active_modal p))
      × ((k : String) → includes modal_params k ≡ false → get k (run actions p) ≡ get k p)
unfolding run show_all
active_modal-run [] p h = (refl, λ k other. refl)
active_modal-run (a ∷ rest) p h =
    let (shown, kept) = active_modal-run rest (navigate a p) h.1 in
    (
      shown ∙ ap (show_all rest) (active_modal-navigate a p h.0),
      λ k other. kept k other ∙ get-navigate a p k other,
    )
