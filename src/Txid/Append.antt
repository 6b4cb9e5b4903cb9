-- ===== src/Txid/Append.antt =====
-- pkg/txid/merkletree.go: the leaf of a transaction, and how it is appended to a store, of which
-- `ListLeaves` and `UpsertLeaf` are parameters.
use railgun_go.Common.{
  wrap, in_leaf_hash, is_blank, ℕ, ◌<◌, ◌≡◌, ap, sym, ltb, ◌||◌, not, List, All, some, Text, Result,
  ok, err, ◌>>=◌, ◌>>◌, >>=-eq-ok, guard, value_required, negative_tree_or_index,
  index_exceeds_tree, leaf_hash_required,
}
use mathlib.Core.Path.{subst}
use railgun_go.Common.Int.{pos, pos_part, is_negative}
use railgun_go.Crypto.Bytes.{hex_to_big_int}
use railgun_go.Merkle.{Hash}
use railgun_go.UtxoTree.{tree_max_items}
use railgun_go.Txid.{
  TxidLeaf, get_global_tree_position, railgun_txid_leaf_hash, next_merkle_tree_position,
}
use railgun_go.Txid.Transactions.{Transaction}
use railgun_go.Txid.Positions.{next_merkle_tree_position-free}

unfoldable pub validate_txid_leaf : TxidLeaf → Result (Unit {0})
validate_txid_leaf leaf = do
  guard (ltb leaf.index tree_max_items) index_exceeds_tree
  guard (not (is_blank leaf.hash)) leaf_hash_required
  n ← wrap in_leaf_hash (hex_to_big_int leaf.hash)
  ok tt

module _ (poseidon : Hash) where
  unfoldable pub transaction_leaf_hash : Transaction → Result Text
  transaction_leaf_hash transaction = do
    guard (not (is_blank transaction.railgun_txid)) value_required
    guard
        (not (
          is_negative transaction.utxo_tree_in
          || is_negative transaction.utxo_tree_out
          || is_negative transaction.utxo_batch_start_position_out))
        negative_tree_or_index
    txid ← hex_to_big_int transaction.railgun_txid
    railgun_txid_leaf_hash poseidon (some txid) (pos_part transaction.utxo_tree_in) (
        some (
          pos (
            get_global_tree_position (pos_part transaction.utxo_tree_out)
              (pos_part transaction.utxo_batch_start_position_out))))

  unfoldable pub merkle_leaf_from_transaction : Transaction → ℕ → ℕ → Result TxidLeaf
  merkle_leaf_from_transaction transaction tree index = do
    hash ← transaction_leaf_hash transaction
    ok (record {
      tree = tree;
      index = index;
      hash = hash;
      railgun_txid = transaction.railgun_txid;
      block_number = transaction.block_number;
    })

  module _ {S : Type 0} (list_leaves : S → Result (List TxidLeaf))
      (upsert_leaf : S → TxidLeaf → Result S) where
    unfoldable pub append_transaction_leaf : S → Transaction → Result (TxidLeaf × S)
    append_transaction_leaf store transaction = do
      position ← next_merkle_tree_position (list_leaves store)
      leaf ← merkle_leaf_from_transaction transaction position.0 position.1
      after ← upsert_leaf store leaf
      ok (leaf, after)

    merkle_leaf_from_transaction-at :
        (transaction : Transaction) (tree index : ℕ) (leaf : TxidLeaf)
        → merkle_leaf_from_transaction transaction tree index ≡ ok leaf
        → (leaf.tree ≡ tree) × (leaf.index ≡ index)
    unfolding merkle_leaf_from_transaction
    merkle_leaf_from_transaction-at transaction tree index leaf e =
        let (hash, hashed, made) = >>=-eq-ok (transaction_leaf_hash transaction) _ e in
        (
          ap (λ r. elim r [ ok l ↦ l.tree | err _ ↦ tree ]) (sym made),
          ap (λ r. elim r [ ok l ↦ l.index | err _ ↦ index ]) (sym made),
        )

    abbrev IsNew : S → List TxidLeaf → TxidLeaf × S → Type 0
    IsNew store leaves p =
        (p.0.index < tree_max_items)
        × All
            (λ old.
              get_global_tree_position old.tree old.index
              < get_global_tree_position p.0.tree p.0.index)
            leaves
        × (upsert_leaf store p.0 ≡ ok p.1)

    put-IsNew :
        (store after : S) (leaves : List TxidLeaf) (leaf : TxidLeaf) (tree index : ℕ)
        → next_merkle_tree_position (ok leaves) ≡ ok (tree, index)
        → (leaf.tree ≡ tree) × (leaf.index ≡ index)
        → upsert_leaf store leaf ≡ ok after
        → IsNew store leaves (leaf, after)
    put-IsNew store after leaves leaf tree index found (t, i) put =
        let (small, above) = next_merkle_tree_position-free leaves tree index found in
        (rw i small, rw (t, i) above, put)

    -- When `AppendTransactionLeaf` succeeds, the leaf that it puts into the store and returns has
    -- an index within a tree, and its global position is above that of every leaf that the store
    -- listed before.
    pub append_transaction_leaf-new :
        (store after : S) (transaction : Transaction) (leaves : List TxidLeaf) (leaf : TxidLeaf)
        → list_leaves store ≡ ok leaves
        → append_transaction_leaf store transaction ≡ ok (leaf, after)
        → (leaf.index < tree_max_items)
          × All
              (λ old.
                get_global_tree_position old.tree old.index
                < get_global_tree_position leaf.tree leaf.index)
              leaves
          × (upsert_leaf store leaf ≡ ok after)
    unfolding append_transaction_leaf
    append_transaction_leaf-new store after transaction leaves leaf listed e =
        let ((tree, index), found, rest) =
          >>=-eq-ok (next_merkle_tree_position (list_leaves store)) _ e in
        let (made, from, stored) =
          >>=-eq-ok (merkle_leaf_from_transaction transaction tree index) _ rest in
        let (new_store, put, done) = >>=-eq-ok (upsert_leaf store made) _ stored in
        let same : Path (TxidLeaf × S) (made, new_store) (leaf, after) =
          ap (λ r. elim r [ ok p ↦ p | err _ ↦ (leaf, after) ]) done in
        subst (IsNew store leaves) same (
          put-IsNew store new_store leaves made tree index (rw listed at found)
            (merkle_leaf_from_transaction-at transaction tree index made from) put)
