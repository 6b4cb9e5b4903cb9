-- ===== src/UtxoTree/Files/Listing.antt =====
-- pkg/utxotree/store.go: the sorted list of a store's leaves holds the whole store.
use railgun_go.Common.{
  ℕ, ◌+◌, ◌≡◌, refl, sym, ◌∙◌, true, false, ◌==◌, ==_iff, Bool-cases, inl, inr, none, some, List,
  [], ◌∷◌, ◌++◌, ok, if◌then◌else◌, arith, All, All-append,
}
use railgun_go.Common.Map
use railgun_go.Common.Map.{Map, IsMap}
use railgun_go.Common.Trees.{tree_leaves-cons}
use railgun_go.UtxoTree.{Leaf, validate_leaf}
use railgun_go.UtxoTree.Levels.{IsValidMap}
use railgun_go.UtxoTree.Store.{
  Leaves, tree_leaves, put_leaves, validate_leaves, validate_leaves_from, before, insert_sorted,
  sort_leaves, leaves_of_tree, all_leaves, sorted_leaves,
}
use railgun_go.UtxoTree.Store.Laws.{leaf_at, IsTree, IsStore}
use railgun_go.UtxoTree.Files.Lookup.{
  at, last_at, or_none, leaf_at-put_leaves, last_at-append, AreDistinct, last_at-sort_leaves,
}

here_lem :
    (tree index number i : ℕ) (leaf : Leaf) (leaves : Map Leaf)
    → (i == index) ≡ true
    → Map.lookup i leaves ≡ none
    → leaf.index ≡ i
    → leaf.tree ≡ number
    → last_at tree index (leaves_of_tree leaves)
      ≡ (if number == tree then Map.lookup index leaves else none)
    → last_at tree index (leaf ∷ leaves_of_tree leaves)
      ≡ (if number == tree then some leaf else none)
here_lem tree index number i leaf leaves here new same_index same_tree rest =
    let gone : Map.lookup index leaves ≡ none = rw (← (==_iff i index).0 here) new in
    let before : last_at tree index (leaves_of_tree leaves) ≡ none = rest ∙ ground (arith, gone) in
    rw before (ground arith)

there_lem :
    (tree index number i : ℕ) (leaf : Leaf) (leaves : Map Leaf)
    → (i == index) ≡ false
    → leaf.index ≡ i
    → leaf.tree ≡ number
    → last_at tree index (leaves_of_tree leaves)
      ≡ (if number == tree then Map.lookup index leaves else none)
    → last_at tree index (leaf ∷ leaves_of_tree leaves)
      ≡ (if number == tree then Map.lookup index leaves else none)
there_lem tree index number i leaf leaves there same_index same_tree rest =
    let away : at tree index leaf ≡ false = ground arith in rw away (sym (or_none _) ∙ rest)

-- The leaves of one tree.
last_at-leaves_of_tree :
    (tree index number : ℕ) (leaves : Map Leaf)
    → IsTree number leaves
    → last_at tree index (leaves_of_tree leaves)
      ≡ (if number == tree then Map.lookup index leaves else none)
unfolding leaves_of_tree Map.lookup
last_at-leaves_of_tree tree index number [] h = ground arith
last_at-leaves_of_tree tree index number ((i, leaf) ∷ leaves) (m, v, t) =
    let rest = last_at-leaves_of_tree tree index number leaves (m.1, v.1, t.1) in
    elim (Bool-cases (i == index)) [
      | inl here ↦ here_lem tree index number i leaf leaves here m.0 v.0.1 t.0 rest ∙ rw here refl
      | inr there ↦ there_lem tree index number i leaf leaves there v.0.1 t.0 rest ∙ rw there refl
    ]

no_leaf :
    (tree index : ℕ) (store : Leaves)
    → Map.lookup tree store ≡ none
    → leaf_at tree index store ≡ none
unfolding tree_leaves
no_leaf tree index store new = rw (new, tree_leaves) (unfold Map.lookup in refl)

pub last_at-all_leaves :
    (tree index : ℕ) (store : Leaves)
    → IsStore store
    → last_at tree index (all_leaves store) ≡ leaf_at tree index store
unfolding all_leaves tree_leaves Map.lookup
last_at-all_leaves tree index [] h = refl
last_at-all_leaves tree index ((number, leaves) ∷ store) h =
    let rest = last_at-all_leaves tree index store (h.0.1, h.1.1) in
    last_at-append tree index (leaves_of_tree leaves) (all_leaves store)
    ∙ rw
        (
          rest,
          last_at-leaves_of_tree tree index number leaves h.1.0,
          tree_leaves-cons tree number leaves store,
        )
        (elim (Bool-cases (number == tree)) [
          | inl same ↦
              let new : Map.lookup tree store ≡ none = rw (← (==_iff number tree).0 same) h.0.0 in
              rw (same, no_leaf tree index store new) refl
          | inr other ↦ rw other (sym (or_none (leaf_at tree index store)))
        ])

AreDistinct-append :
    (number : ℕ) (xs ys : List Leaf)
    → AreDistinct xs
    → AreDistinct ys
    → All (λ x. x.tree ≡ number) xs
    → ((index : ℕ) → last_at number index ys ≡ none)
    → AreDistinct (xs ++ ys)
AreDistinct-append number [] ys hx hy same apart = hy
AreDistinct-append number (x ∷ xs) ys hx hy same apart = (
  last_at-append x.tree x.index xs ys ∙ rw (same.0, apart x.index) (rw (← same.0) hx.0),
  AreDistinct-append number xs ys hx.1 hy same.1 apart,
)

leaves_of_tree-AreDistinct :
    (number : ℕ) (leaves : Map Leaf) → IsTree number leaves → AreDistinct (leaves_of_tree leaves)
unfolding leaves_of_tree
leaves_of_tree-AreDistinct number [] h = tt
leaves_of_tree-AreDistinct number ((i, leaf) ∷ leaves) (m, v, t) = (
  last_at-leaves_of_tree leaf.tree leaf.index number leaves (m.1, v.1, t.1)
      ∙ rw v.0.1 (rw m.0 (ground arith)),
  leaves_of_tree-AreDistinct number leaves (m.1, v.1, t.1),
)

leaves_of_tree-tree :
    (number : ℕ) (leaves : Map Leaf)
    → IsTree number leaves
    → All (λ leaf. leaf.tree ≡ number) (leaves_of_tree leaves)
unfolding leaves_of_tree
leaves_of_tree-tree number [] h = tt
leaves_of_tree-tree number ((i, leaf) ∷ leaves) (m, v, t) =
    (t.0, leaves_of_tree-tree number leaves (m.1, v.1, t.1))

all_leaves-AreDistinct : (store : Leaves) → IsStore store → AreDistinct (all_leaves store)
unfolding all_leaves
all_leaves-AreDistinct [] h = tt
all_leaves-AreDistinct ((number, leaves) ∷ store) h =
    AreDistinct-append number (leaves_of_tree leaves) (all_leaves store)
      (leaves_of_tree-AreDistinct number leaves h.1.0) (all_leaves-AreDistinct store (h.0.1, h.1.1))
      (leaves_of_tree-tree number leaves h.1.0)
      (λ index.
        last_at-all_leaves number index store (h.0.1, h.1.1) ∙ no_leaf number index store h.0.0)

-- Writing the sorted leaves of a store into an empty one gives the store's leaves.
pub leaf_at-sorted_leaves :
    (tree index : ℕ) (store : Leaves)
    → IsStore store
    → leaf_at tree index (put_leaves (sorted_leaves store) []) ≡ leaf_at tree index store
unfolding sorted_leaves tree_leaves Map.lookup
leaf_at-sorted_leaves tree index store h =
    leaf_at-put_leaves tree index (sorted_leaves store) []
    ∙ sym (or_none _)
    ∙ last_at-sort_leaves tree index (all_leaves store) (all_leaves-AreDistinct store h)
    ∙ last_at-all_leaves tree index store h

insert_sorted-All :
    (P : Leaf → Type 0) (x : Leaf) (ys : List Leaf) → P x → All P ys → All P (insert_sorted x ys)
unfolding insert_sorted
insert_sorted-All P x [] v h = (v, tt)
insert_sorted-All P x (y ∷ ys) v h = elim (Bool-cases (before y x)) [
  | inl later ↦ rw later (h.0, insert_sorted-All P x ys v h.1)
  | inr here ↦ rw here (v, h)
]

pub sort_leaves-All : (P : Leaf → Type 0) (xs : List Leaf) → All P xs → All P (sort_leaves xs)
unfolding sort_leaves
sort_leaves-All P [] h = tt
sort_leaves-All P (x ∷ xs) h = insert_sorted-All P x (sort_leaves xs) h.0 (sort_leaves-All P xs h.1)

abbrev AreValid : List Leaf → Type 0
AreValid = All (λ leaf. validate_leaf leaf ≡ ok tt)

leaves_of_tree-AreValid : (leaves : Map Leaf) → IsValidMap leaves → AreValid (leaves_of_tree leaves)
unfolding leaves_of_tree
leaves_of_tree-AreValid [] h = tt
leaves_of_tree-AreValid ((i, leaf) ∷ leaves) h = (h.0.0, leaves_of_tree-AreValid leaves h.1)

all_leaves-AreValid : (store : Leaves) → IsStore store → AreValid (all_leaves store)
unfolding all_leaves
all_leaves-AreValid [] h = tt
all_leaves-AreValid ((number, leaves) ∷ store) h =
    All-append _ (leaves_of_tree leaves) (all_leaves store) (leaves_of_tree-AreValid leaves h.1.0.1)
      (all_leaves-AreValid store (h.0.1, h.1.1))

validate_leaves-AreValid :
    (i : ℕ) (xs : List Leaf) → AreValid xs → validate_leaves_from i xs ≡ ok tt
unfolding validate_leaves_from
validate_leaves-AreValid i [] h = refl
validate_leaves-AreValid i (x ∷ xs) h = rw h.0 (validate_leaves-AreValid (i + 1) xs h.1)

pub validate_leaves-sorted_leaves :
    (store : Leaves) → IsStore store → validate_leaves (sorted_leaves store) ≡ ok tt
unfolding sorted_leaves validate_leaves
validate_leaves-sorted_leaves store h =
    validate_leaves-AreValid 0 _
      (sort_leaves-All _ (all_leaves store) (all_leaves-AreValid store h))
