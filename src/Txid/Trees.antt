-- ===== src/Txid/Trees.antt =====
-- pkg/txid/merkletree.go: `MemoryMerkleTreeStore`, the leaves of the txid trees. A nil store is
-- `none`; each method holds the store's lock.
use railgun_go.Common.{
  ℕ, ltb, leb, not, ◌==◌, if◌then◌else◌, Bool, Option, List, [], ◌∷◌, ◌++◌, sort_by, Result, ok,
  ◌>>=◌, ◌>>◌, Context, live, required, store_required,
}
use railgun_go.Common.Map
use railgun_go.Common.Map.{Map}
use railgun_go.Common.Trees.{tree_leaves, filter_trees}
use railgun_go.Txid.{TxidLeaf}
use railgun_go.Txid.Append.{validate_txid_leaf}

-- tree → index → leaf
abbrev pub TxidLeaves : Type 0
TxidLeaves = Map (Map TxidLeaf)

unfoldable pub put_txid_leaf : TxidLeaf → TxidLeaves → TxidLeaves
put_txid_leaf leaf store =
    Map.insert leaf.tree (Map.insert leaf.index leaf (tree_leaves leaf.tree store)) store

unfoldable pub upsert_txid_leaf : Context → Option TxidLeaves → TxidLeaf → Result TxidLeaves
upsert_txid_leaf ctx store leaf = do
  live ctx
  leaves ← required store store_required
  validate_txid_leaf leaf
  ok (put_txid_leaf leaf leaves)

unfoldable pub get_txid_leaf : Context → Option TxidLeaves → ℕ → ℕ → Result (Option TxidLeaf)
get_txid_leaf ctx store tree index = do
  live ctx
  leaves ← required store store_required
  ok (Map.lookup index (tree_leaves tree leaves))

-- The order of `sortedMerkleLeaves`.
abbrev pub txid_leaf_before : TxidLeaf → TxidLeaf → Bool
txid_leaf_before a b = if not (a.tree == b.tree) then ltb a.tree b.tree else ltb a.index b.index

unfoldable pub txid_leaves_of_tree : Map TxidLeaf → List TxidLeaf
txid_leaves_of_tree [] = []
txid_leaves_of_tree ((index, leaf) ∷ leaves) = leaf ∷ txid_leaves_of_tree leaves

unfoldable pub all_txid_leaves : TxidLeaves → List TxidLeaf
all_txid_leaves [] = []
all_txid_leaves ((tree, leaves) ∷ store) = txid_leaves_of_tree leaves ++ all_txid_leaves store

unfoldable pub sorted_txid_leaves : TxidLeaves → List TxidLeaf
sorted_txid_leaves store = sort_by txid_leaf_before (all_txid_leaves store)

unfoldable pub list_txid_leaves : Context → Option TxidLeaves → Result (List TxidLeaf)
list_txid_leaves ctx store = do
  live ctx
  leaves ← required store store_required
  ok (sorted_txid_leaves leaves)

-- The leaves that `RollbackToBlock` keeps.
unfoldable pub is_kept_txid_leaf : ℕ → TxidLeaf → Bool
is_kept_txid_leaf from_block leaf = not (leb from_block leaf.block_number)

unfoldable pub rollback_txid_leaves : Context → Option TxidLeaves → ℕ → Result TxidLeaves
rollback_txid_leaves ctx store from_block = do
  live ctx
  leaves ← required store store_required
  ok (filter_trees (is_kept_txid_leaf from_block) leaves)
