-- ===== src/UtxoTree/Store/Laws.antt =====
-- pkg/utxotree/store.go: what the writes of a `MemoryStore` do to what its reads return.
use railgun_go.Common.{
  ◌+◌, wrap, wrap-ok, at_leaf, Bool, ℕ, ◌≡◌, refl, ap, ◌∙◌, ltb, ◌==◌, ◌&&◌, Option-cases, inl, inr,
  Option, none, some, List, [], ◌∷◌, ok, >>=-eq-ok, if◌then◌else◌, arith,
}
use railgun_go.Common.Map
use railgun_go.Common.Map.{Map, IsMap}
use railgun_go.Common.Trees.{filter_trees, tree_leaves-filter_trees, lookup-filter_trees-none}
use railgun_go.UtxoTree.{Leaf, validate_leaf}
use railgun_go.UtxoTree.Levels.{IsValidMap}
use railgun_go.UtxoTree.Store.{
  Leaves, tree_leaves, put_leaf, put_leaves, upsert_leaf, validate_leaves, validate_leaves_from,
  get_leaf, is_kept, keep_tree, rollback, rollback_to_block,
}

-- The leaf at a position, if there is one.
abbrev pub leaf_at : ℕ → ℕ → Leaves → Option Leaf
leaf_at tree index store = Map.lookup index (tree_leaves tree store)

-- The leaves of tree `tree`: valid, each under its own index, with distinct indices.
abbrev pub IsTree : ℕ → Map Leaf → Type 0
IsTree tree leaves =
    IsMap leaves × IsValidMap leaves × Map.Entries (λ i leaf. leaf.tree ≡ tree) leaves

-- A store holds distinct trees, and each of its maps is the tree of its number.
abbrev pub IsStore : Leaves → Type 0
IsStore store = IsMap store × Map.Entries IsTree store

pub tree_leaves-IsTree :
    (tree : ℕ) (store : Leaves) → IsStore store → IsTree tree (tree_leaves tree store)
unfolding tree_leaves
tree_leaves-IsTree tree store h = elim (Option-cases (Map.lookup tree store)) [
  | inl e ↦ rw (e, tree_leaves) (tt, tt, tt)
  | inr (leaves, e) ↦ rw (e, tree_leaves) (Map.lookup-Entries IsTree tree leaves store h.1 e)
]

pub put_leaf-IsStore :
    (leaf : Leaf) (store : Leaves)
    → validate_leaf leaf ≡ ok tt
    → IsStore store
    → IsStore (put_leaf leaf store)
unfolding put_leaf
put_leaf-IsStore leaf store v h =
    let old = tree_leaves leaf.tree store in
    let tree = tree_leaves-IsTree leaf.tree store h in
    (
      Map.insert-IsMap leaf.tree (Map.insert leaf.index leaf old) store h.0,
      Map.insert-Entries IsTree leaf.tree (Map.insert leaf.index leaf old) store
          (
            Map.insert-IsMap leaf.index leaf old tree.0,
            Map.insert-Entries _ leaf.index leaf old (v, refl) tree.1,
            Map.insert-Entries _ leaf.index leaf old refl tree.2,
          )
          h.1,
    )

put_leaves_from-IsStore :
    (i : ℕ) (leaves : List Leaf) (store : Leaves)
    → validate_leaves_from i leaves ≡ ok tt
    → IsStore store
    → IsStore (put_leaves leaves store)
unfolding put_leaves validate_leaves_from
put_leaves_from-IsStore i [] store v h = h
put_leaves_from-IsStore i (leaf ∷ leaves) store v h =
    let (u, first, rest) = >>=-eq-ok (wrap (at_leaf i) (validate_leaf leaf)) _ v in
    put_leaves_from-IsStore (i + 1) leaves (put_leaf leaf store) rest
      (put_leaf-IsStore leaf store (wrap-ok (at_leaf i) (validate_leaf leaf) first) h)

pub put_leaves-IsStore :
    (leaves : List Leaf) (store : Leaves)
    → validate_leaves leaves ≡ ok tt
    → IsStore store
    → IsStore (put_leaves leaves store)
unfolding validate_leaves
put_leaves-IsStore = put_leaves_from-IsStore 0

-- Rolling back filters each tree, whether it is deleted or not.
pub tree_leaves-rollback :
    (b t : ℕ) (store : Leaves)
    → IsMap store
    → tree_leaves t (rollback b store) ≡ Map.filter_entries (is_kept b) (tree_leaves t store)
unfolding rollback
tree_leaves-rollback b t store h = tree_leaves-filter_trees (is_kept b) t store h

keep_tree-IsStore :
    (tree : ℕ) (leaves : Map Leaf) (store : Leaves)
    → IsTree tree leaves
    → Map.lookup tree store ≡ none
    → IsStore store
    → IsStore (keep_tree tree leaves store)
keep_tree-IsStore tree [] store t new h = h
keep_tree-IsStore tree (entry ∷ entries) store t new h = ((new, h.0), (t, h.1))

filter_trees-IsStore :
    (keep : Leaf → Bool) (store : Leaves) → IsStore store → IsStore (filter_trees keep store)
unfolding filter_trees
filter_trees-IsStore keep [] h = (tt, tt)
filter_trees-IsStore keep ((tree, leaves) ∷ store) h =
    keep_tree-IsStore tree (Map.filter_entries keep leaves) (filter_trees keep store)
      (
        Map.filter_entries-IsMap keep leaves h.1.0.0,
        Map.filter_entries-Entries _ keep leaves h.1.0.1,
        Map.filter_entries-Entries _ keep leaves h.1.0.2,
      )
      (lookup-filter_trees-none keep tree store h.0.0)
      (filter_trees-IsStore keep store (h.0.1, h.1.1))

pub rollback-IsStore : (b : ℕ) (store : Leaves) → IsStore store → IsStore (rollback b store)
unfolding rollback
rollback-IsStore b store h = filter_trees-IsStore (is_kept b) store h

-- A write puts the leaf at its position and changes no other.
pub lookup-put_leaf :
    (leaf : Leaf) (store : Leaves) (tree index : ℕ)
    → leaf_at tree index (put_leaf leaf store)
      ≡ (if leaf.tree == tree && leaf.index == index then some leaf else leaf_at tree index store)
unfolding put_leaf
lookup-put_leaf leaf store tree index = ground (
  arith,
  Map.lookup-insert leaf.tree tree (Map.insert leaf.index leaf (tree_leaves leaf.tree store)) store,
  Map.lookup-insert leaf.index index leaf (tree_leaves leaf.tree store),
)

keep_lower :
    (b : ℕ) (o : Option Leaf)
    → Map.keep (is_kept b) o ≡ Map.keep (λ leaf. ltb leaf.block_number b) o
unfolding is_kept
keep_lower b none = refl
keep_lower b (some leaf) = ground arith

-- After `UpsertLeaf`, `GetLeaf` finds the leaf at its position and at every other what it found
-- before.
pub get_leaf-upsert_leaf :
    (store after : Leaves) (leaf : Leaf) (tree index : ℕ)
    → upsert_leaf none (some store) leaf ≡ ok after
    → get_leaf none (some after) tree index ≡ (
        if leaf.tree == tree && leaf.index == index
        then ok (some leaf)
        else get_leaf none (some store) tree index)
unfolding upsert_leaf get_leaf
get_leaf-upsert_leaf store after leaf tree index e =
    let (u, valid, same) = >>=-eq-ok (validate_leaf leaf) _ e in
    ground (arith, same, lookup-put_leaf leaf store tree index)

-- After `RollbackToBlock` on a well-formed store, `GetLeaf` finds exactly the leaves of lower
-- blocks.
pub get_leaf-rollback_to_block :
    (store : Leaves) (from_block tree index : ℕ)
    → IsStore store
    → (after : Leaves) × (rollback_to_block none (some store) from_block ≡ ok after)
      × (get_leaf none (some after) tree index
          ≡ ok (Map.keep (λ leaf. ltb leaf.block_number from_block) (leaf_at tree index store)))
unfolding rollback_to_block get_leaf
get_leaf-rollback_to_block store from_block tree index h = (
  rollback from_block store,
  refl,
  ap ok (
      ap (Map.lookup index) (tree_leaves-rollback from_block tree store h.0)
      ∙ Map.lookup-filter_entries (is_kept from_block) index (tree_leaves tree store)
          (tree_leaves-IsTree tree store h).0
      ∙ keep_lower from_block (leaf_at tree index store)),
)
