-- ===== src/UtxoTree/Store.antt =====
-- pkg/utxotree/store.go: `MemoryStore`, the leaves of all trees. A nil store is `none`. Each method
-- holds the store's lock for its whole body, so a method is one step of the store.
pub mod Laws
pub mod Verify
use railgun_go.Common.{
  ℕ, ◌+◌, wrap, at_leaf, ltb, leb, not, ◌==◌, if◌then◌else◌, Bool, ◌&&◌, ◌||◌, Option, none, some,
  List, [], ◌∷◌, ◌++◌, Text, Result, ok, err, ◌>>=◌, ◌>>◌, Context, live, required, store_required,
}
use railgun_go.Common.Map
use railgun_go.Common.Map.{Map}
use railgun_go.Common.Trees.{filter_trees}
unfoldable pub use railgun_go.Common.Trees.{tree_leaves, keep_tree}
use railgun_go.Merkle.{Hash, MerkleProof}
use railgun_go.UtxoTree.{Leaf, validate_leaf, root_of_leaves, proof_from_leaves}

-- tree → index → leaf
abbrev pub Leaves : Type 0
Leaves = Map (Map Leaf)

unfoldable pub put_leaf : Leaf → Leaves → Leaves
unfolding tree_leaves
put_leaf leaf store =
    Map.insert leaf.tree (Map.insert leaf.index leaf (tree_leaves leaf.tree store)) store

unfoldable pub put_leaves : List Leaf → Leaves → Leaves
unfolding put_leaf
put_leaves [] store = store
put_leaves (leaf ∷ leaves) store = put_leaves leaves (put_leaf leaf store)

unfoldable pub upsert_leaf : Context → Option Leaves → Leaf → Result Leaves
upsert_leaf ctx store leaf = do
  live ctx
  leaves ← required store store_required
  validate_leaf leaf
  ok (put_leaf leaf leaves)

-- The loop of `validateLeaf` over leaves from the index `i` on.
unfoldable pub validate_leaves_from : ℕ → List Leaf → Result (Unit {0})
validate_leaves_from i [] = ok tt
validate_leaves_from i (leaf ∷ leaves) = do
  wrap (at_leaf i) (validate_leaf leaf)
  validate_leaves_from (i + 1) leaves

unfoldable pub validate_leaves : List Leaf → Result (Unit {0})
unfolding validate_leaves_from
validate_leaves leaves = validate_leaves_from 0 leaves

unfoldable pub upsert_leaves : Context → Option Leaves → List Leaf → Result Leaves
upsert_leaves ctx store leaves = do
  live ctx
  present ← required store store_required
  validate_leaves leaves
  ok (put_leaves leaves present)

unfoldable pub get_leaf : Context → Option Leaves → ℕ → ℕ → Result (Option Leaf)
get_leaf ctx store tree index = do
  live ctx
  leaves ← required store store_required
  ok (Map.lookup index (tree_leaves tree leaves))

-- The order of `sortedLeaves`: by tree, then by index.
abbrev pub before : Leaf → Leaf → Bool
before a b = if a.tree == b.tree then ltb a.index b.index else ltb a.tree b.tree

-- `sort.Slice`: no two leaves of a store are alike in this order, so one sorted order is possible.
unfoldable pub insert_sorted : Leaf → List Leaf → List Leaf
insert_sorted x [] = x ∷ []
insert_sorted x (y ∷ ys) = if before y x then y ∷ insert_sorted x ys else x ∷ y ∷ ys

unfoldable pub sort_leaves : List Leaf → List Leaf
unfolding insert_sorted
sort_leaves [] = []
sort_leaves (x ∷ xs) = insert_sorted x (sort_leaves xs)

unfoldable pub leaves_of_tree : Map Leaf → List Leaf
leaves_of_tree [] = []
leaves_of_tree ((index, leaf) ∷ leaves) = leaf ∷ leaves_of_tree leaves

unfoldable pub all_leaves : Leaves → List Leaf
unfolding leaves_of_tree
all_leaves [] = []
all_leaves ((tree, leaves) ∷ store) = leaves_of_tree leaves ++ all_leaves store

unfoldable pub sorted_leaves : Leaves → List Leaf
unfolding sort_leaves all_leaves
sorted_leaves store = sort_leaves (all_leaves store)

unfoldable pub list_leaves : Context → Option Leaves → Result (List Leaf)
unfolding sorted_leaves
list_leaves ctx store = do
  live ctx
  leaves ← required store store_required
  ok (sorted_leaves leaves)

-- The leaves that `RollbackToBlock` keeps.
unfoldable pub is_kept : ℕ → Leaf → Bool
is_kept from_block leaf = not (leb from_block leaf.block_number)

unfoldable pub rollback : ℕ → Leaves → Leaves
rollback from_block store = filter_trees (is_kept from_block) store

unfoldable pub rollback_to_block : Context → Option Leaves → ℕ → Result Leaves
rollback_to_block ctx store from_block = do
  live ctx
  leaves ← required store store_required
  ok (rollback from_block leaves)

module _ (poseidon : Hash) (zeros : List Text) where
  unfoldable pub root : Context → Option Leaves → ℕ → Result Text
  root ctx store tree = do
    live ctx
    leaves ← required store store_required
    root_of_leaves poseidon zeros (tree_leaves tree leaves)

  unfoldable pub proof : Context → Option Leaves → ℕ → ℕ → Result MerkleProof
  proof ctx store tree index = do
    live ctx
    leaves ← required store store_required
    proof_from_leaves poseidon zeros (tree_leaves tree leaves) index
