-- ===== src/Txid/Reorg.antt =====
-- pkg/txid/store.go and pkg/txid/merkletree.go: what the memory stores find after a rollback.
use railgun_go.Common.{
  ℕ, ltb, ◌≡◌, refl, ap, ◌∙◌, Option-cases, inl, inr, Option, none, some, Text, ok, arith,
}
use railgun_go.Common.Map
use railgun_go.Common.Map.{IsMap}
use railgun_go.Common.TextMap.{IsTextMap, find, changed, change_entries, find-change_entries}
use railgun_go.Common.Trees.{tree_leaves, filter_trees, tree_leaves-filter_trees}
use railgun_go.Txid.{TxidLeaf}
use railgun_go.Txid.Transactions.{
  Transaction, Transactions, kept_transaction, get_by_railgun_txid, rollback_transactions,
}
use railgun_go.Txid.Trees.{TxidLeaves, is_kept_txid_leaf, get_txid_leaf, rollback_txid_leaves}

-- What was found, if it is of a block before `b`.
abbrev pub transaction_before_block : ℕ → Option Transaction → Option Transaction
transaction_before_block b found = Map.keep (λ t. ltb t.block_number b) found

abbrev pub leaf_before_block : ℕ → Option TxidLeaf → Option TxidLeaf
leaf_before_block b found = Map.keep (λ leaf. ltb leaf.block_number b) found

changed-kept_transaction :
    (b : ℕ) (found : Option Transaction)
    → changed (kept_transaction b) found ≡ transaction_before_block b found
unfolding kept_transaction
changed-kept_transaction b none = refl
changed-kept_transaction b (some t) = ground arith

-- After `RollbackToBlock` of the memory store of transactions, which succeeds with a context that
-- is not cancelled, `GetByRailgunTxid` finds a transaction that it found before if that is of a
-- lower block, and otherwise nothing. The store is a map whose ids are distinct.
pub get_by_railgun_txid-rollback_transactions :
    (before : Transactions) (found : Option Transaction) (from_block : ℕ) (id : Text)
    → IsTextMap before
    → get_by_railgun_txid none (some before) id ≡ ok found
    → (after : Transactions) × (rollback_transactions none (some before) from_block ≡ ok after)
      × (get_by_railgun_txid none (some after) id ≡ ok (transaction_before_block from_block found))
unfolding rollback_transactions get_by_railgun_txid
get_by_railgun_txid-rollback_transactions before found b id h e =
    let same : find id before ≡ found = cc e in
    (
      change_entries (kept_transaction b) before,
      refl,
      ap ok (
          find-change_entries (kept_transaction b) id before h
          ∙ ap (changed (kept_transaction b)) same
          ∙ changed-kept_transaction b found),
    )

keep-is_kept_txid_leaf :
    (b : ℕ) (found : Option TxidLeaf)
    → Map.keep (is_kept_txid_leaf b) found ≡ leaf_before_block b found
unfolding is_kept_txid_leaf
keep-is_kept_txid_leaf b none = refl
keep-is_kept_txid_leaf b (some leaf) = ground arith

tree_leaves-IsMap :
    (tree : ℕ) (store : TxidLeaves)
    → Map.Entries (λ t leaves. IsMap leaves) store
    → IsMap (tree_leaves tree store)
unfolding tree_leaves
tree_leaves-IsMap tree store h = elim (Option-cases (Map.lookup tree store)) [
  | inl e ↦ rw (e, tree_leaves) tt
  | inr (leaves, e) ↦
      rw (e, tree_leaves) (Map.lookup-Entries (λ t ls. IsMap ls) tree leaves store h e)
]

-- After `RollbackToBlock` of the memory store of txid leaves, which succeeds with a context that
-- is not cancelled, `GetLeaf` finds at each position the leaf that it found before if that is of a
-- lower block, and otherwise nothing, whether the tree is emptied or not. The store is a map of
-- maps whose trees and indices are distinct.
pub get_txid_leaf-rollback_txid_leaves :
    (before : TxidLeaves) (found : Option TxidLeaf) (from_block tree index : ℕ)
    → IsMap before
    → Map.Entries (λ t leaves. IsMap leaves) before
    → get_txid_leaf none (some before) tree index ≡ ok found
    → (after : TxidLeaves) × (rollback_txid_leaves none (some before) from_block ≡ ok after)
      × (get_txid_leaf none (some after) tree index ≡ ok (leaf_before_block from_block found))
unfolding rollback_txid_leaves get_txid_leaf
get_txid_leaf-rollback_txid_leaves before found b tree index h each e =
    let same : Map.lookup index (tree_leaves tree before) ≡ found = cc e in
    (
      filter_trees (is_kept_txid_leaf b) before,
      refl,
      ap ok (
          ap (Map.lookup index) (tree_leaves-filter_trees (is_kept_txid_leaf b) tree before h)
          ∙ Map.lookup-filter_entries (is_kept_txid_leaf b) index (tree_leaves tree before)
              (tree_leaves-IsMap tree before each)
          ∙ ap (Map.keep (is_kept_txid_leaf b)) same
          ∙ keep-is_kept_txid_leaf b found),
    )
