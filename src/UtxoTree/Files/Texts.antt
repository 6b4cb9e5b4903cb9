-- ===== src/UtxoTree/Files/Texts.antt =====
-- pkg/utxotree/store.go: the texts of the leaves that are put into a store are the texts of the
-- leaves that it lists.
use railgun_go.Common.{
  ℕ, Bool, ◌≡◌, true, Option-cases, inl, inr, List, [], ◌∷◌, Text, All, All-append,
}
use railgun_go.Common.Map
use railgun_go.Common.Map.{Map}
use railgun_go.Common.Trees.{filter_trees, keep_tree}
use railgun_go.UtxoTree.{Leaf}
use railgun_go.UtxoTree.Store.{
  Leaves, tree_leaves, put_leaf, put_leaves, leaves_of_tree, all_leaves, sorted_leaves, is_kept,
  rollback,
}
use railgun_go.UtxoTree.Files.Listing.{sort_leaves-All}

-- The strings of a leaf pass the test, which stands for `utf8.ValidString`.
abbrev pub IsTextLeaf : (Text → Bool) → Leaf → Type 0
IsTextLeaf is_text leaf =
    (is_text leaf.hash ≡ true) × (is_text leaf.txid ≡ true) × (is_text leaf.commitment_type ≡ true)

module _ (is_text : Text → Bool) where
  abbrev EachOfTree : Map Leaf → Type 0
  EachOfTree = Map.Entries (λ i leaf. IsTextLeaf is_text leaf)

  abbrev pub EachText : Leaves → Type 0
  EachText = Map.Entries (λ tree leaves. EachOfTree leaves)

  tree_leaves-EachOfTree :
      (tree : ℕ) (store : Leaves) → EachText store → EachOfTree (tree_leaves tree store)
  unfolding tree_leaves
  tree_leaves-EachOfTree tree store h = elim (Option-cases (Map.lookup tree store)) [
    | inl e ↦ rw (e, tree_leaves) tt
    | inr (leaves, e) ↦
        rw (e, tree_leaves) (Map.lookup-Entries (λ t ls. EachOfTree ls) tree leaves store h e)
  ]

  pub put_leaf-EachText :
      (leaf : Leaf) (store : Leaves)
      → IsTextLeaf is_text leaf
      → EachText store
      → EachText (put_leaf leaf store)
  unfolding put_leaf
  put_leaf-EachText leaf store t h =
      Map.insert-Entries (λ t ls. EachOfTree ls) leaf.tree _ store
        (Map.insert-Entries (λ i l. IsTextLeaf is_text l) leaf.index leaf
          (tree_leaves leaf.tree store) t (tree_leaves-EachOfTree leaf.tree store h))
        h

  pub put_leaves-EachText :
      (leaves : List Leaf) (store : Leaves)
      → All (IsTextLeaf is_text) leaves
      → EachText store
      → EachText (put_leaves leaves store)
  unfolding put_leaves
  put_leaves-EachText [] store t h = h
  put_leaves-EachText (leaf ∷ leaves) store t h =
      put_leaves-EachText leaves (put_leaf leaf store) t.1 (put_leaf-EachText leaf store t.0 h)

  keep_tree-EachText :
      (tree : ℕ) (leaves : Map Leaf) (store : Leaves)
      → EachOfTree leaves
      → EachText store
      → EachText (keep_tree tree leaves store)
  keep_tree-EachText tree [] store h k = k
  keep_tree-EachText tree (entry ∷ entries) store h k = (h, k)

  filter_trees-EachText :
      (keep : Leaf → Bool) (store : Leaves) → EachText store → EachText (filter_trees keep store)
  unfolding filter_trees
  filter_trees-EachText keep [] h = tt
  filter_trees-EachText keep ((tree, leaves) ∷ store) h =
      keep_tree-EachText tree (Map.filter_entries keep leaves) (filter_trees keep store)
        (Map.filter_entries-Entries _ keep leaves h.0) (filter_trees-EachText keep store h.1)

  pub rollback-EachText : (b : ℕ) (store : Leaves) → EachText store → EachText (rollback b store)
  unfolding rollback
  rollback-EachText b store h = filter_trees-EachText (is_kept b) store h

  leaves_of_tree-EachOfTree :
      (leaves : Map Leaf) → EachOfTree leaves → All (IsTextLeaf is_text) (leaves_of_tree leaves)
  unfolding leaves_of_tree
  leaves_of_tree-EachOfTree [] h = tt
  leaves_of_tree-EachOfTree ((i, leaf) ∷ leaves) h = (h.0, leaves_of_tree-EachOfTree leaves h.1)

  all_leaves-EachText :
      (store : Leaves) → EachText store → All (IsTextLeaf is_text) (all_leaves store)
  unfolding all_leaves
  all_leaves-EachText [] h = tt
  all_leaves-EachText ((number, leaves) ∷ store) h =
      All-append _ (leaves_of_tree leaves) (all_leaves store) (leaves_of_tree-EachOfTree leaves h.0)
        (all_leaves-EachText store h.1)

  pub sorted_leaves-EachText :
      (store : Leaves) → EachText store → All (IsTextLeaf is_text) (sorted_leaves store)
  unfolding sorted_leaves
  sorted_leaves-EachText store h =
      sort_leaves-All _ (all_leaves store) (all_leaves-EachText store h)
