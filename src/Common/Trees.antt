-- ===== src/Common/Trees.antt =====
-- Maps of maps: the leaves of the trees of a store, by tree and index.
use mathlib.Core.Path.{◌≡◌, refl, ◌∙◌}
use mathlib.Core.Logic.{inl, inr}
use mathlib.Core.Bool.{Bool, false}
use mathlib.Core.Option.{none, some}
use mathlib.Core.List.{[], ◌∷◌}
use Prim.Native.Nat.{ℕ}
use native.Mathlib.Omega.{arith}
use railgun_go.Common.Tests.{Bool-cases, if◌then◌else◌, ◌==◌, ==_iff}
use railgun_go.Common.Map
use railgun_go.Common.Map.{Map, IsMap}

module _ {V : Type 0} where
  -- Reading a tree that is not there reads an empty map.
  unfoldable pub tree_leaves : ℕ → Map (Map V) → Map V
  tree_leaves tree store = elim (Map.lookup tree store) [ none ↦ [] | some leaves ↦ leaves ]

  -- A tree that is emptied is deleted from the map.
  abbrev pub keep_tree : ℕ → Map V → Map (Map V) → Map (Map V)
  keep_tree tree [] rest = rest
  keep_tree tree (entry ∷ entries) rest = (tree, entry ∷ entries) ∷ rest

  unfoldable pub filter_trees : (V → Bool) → Map (Map V) → Map (Map V)
  filter_trees keep [] = []
  filter_trees keep ((tree, leaves) ∷ store) =
      keep_tree tree (Map.filter_entries keep leaves) (filter_trees keep store)

  pub tree_leaves-cons :
      (t tree : ℕ) (leaves : Map V) (store : Map (Map V))
      → tree_leaves t ((tree, leaves) ∷ store) ≡ (if tree == t then leaves else tree_leaves t store)
  unfolding tree_leaves Map.lookup
  tree_leaves-cons t tree leaves store = ground arith

  tree_leaves-keep_tree :
      (t tree : ℕ) (leaves : Map V) (store : Map (Map V))
      → Map.lookup tree store ≡ none
      → tree_leaves t (keep_tree tree leaves store)
        ≡ (if tree == t then leaves else tree_leaves t store)
  unfolding tree_leaves
  tree_leaves-keep_tree t tree [] store new = elim (Bool-cases (tree == t)) [
    | inl same ↦ rw (same, ← (==_iff tree t).0 same, new, tree_leaves)
    | inr other ↦ rw other
  ]
  tree_leaves-keep_tree t tree (entry ∷ entries) store new =
      tree_leaves-cons t tree (entry ∷ entries) store

  lookup-keep_tree_ne :
      (t tree : ℕ) (leaves : Map V) (store : Map (Map V))
      → (tree == t) ≡ false
      → Map.lookup t (keep_tree tree leaves store) ≡ Map.lookup t store
  unfolding Map.lookup
  lookup-keep_tree_ne t tree [] store ne = refl
  lookup-keep_tree_ne t tree (entry ∷ entries) store ne = rw ne

  pub lookup-filter_trees-none :
      (keep : V → Bool) (t : ℕ) (store : Map (Map V))
      → Map.lookup t store ≡ none
      → Map.lookup t (filter_trees keep store) ≡ none
  unfolding filter_trees Map.lookup
  lookup-filter_trees-none keep t [] e = refl
  lookup-filter_trees-none keep t ((tree, leaves) ∷ store) e = elim (Bool-cases (tree == t)) [
    | inl same ↦ cc (rw same at e)
    | inr ne ↦
        lookup-keep_tree_ne t tree (Map.filter_entries keep leaves) (filter_trees keep store) ne
        ∙ lookup-filter_trees-none keep t store (rw ne at e)
  ]

  -- Rolling back filters each tree, whether it is deleted or not.
  pub tree_leaves-filter_trees :
      (keep : V → Bool) (t : ℕ) (store : Map (Map V))
      → IsMap store
      → tree_leaves t (filter_trees keep store) ≡ Map.filter_entries keep (tree_leaves t store)
  unfolding filter_trees
  tree_leaves-filter_trees keep t [] h = unfold tree_leaves Map.lookup Map.filter_entries in refl
  tree_leaves-filter_trees keep t ((tree, leaves) ∷ store) h =
      tree_leaves-keep_tree t tree (Map.filter_entries keep leaves) (filter_trees keep store)
        (lookup-filter_trees-none keep tree store h.0)
      ∙ ground
          (arith, tree_leaves-cons t tree leaves store, tree_leaves-filter_trees keep t store h.1)
