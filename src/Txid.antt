-- ===== src/Txid.antt =====
-- pkg/txid/txid.go: the identifiers of RAILGUN transactions and their positions in the txid trees,
-- with pkg/txid/merkletree.go: the position of the next leaf. The Poseidon hash is a parameter.
pub mod Positions
pub mod Transactions
pub mod Append
pub mod Trees
pub mod Reorg
mod Tests
use railgun_go.Common.{
  ℕ, zero, suc, ◌+◌, ◌-◌, ◌*◌, ◌/◌, ◌%◌, ◌^◌, ltb, if◌then◌else◌, Bool, false, Option, none, some,
  List, [], ◌∷◌, ◌++◌, length, replicate, Text, Result, ok, err, ◌>>=◌, ◌>>◌, guard, Context, live,
  required, store_required, value_required, position_overflow,
}
use railgun_go.Common.Int.{ℤ, pos}
use railgun_go.Crypto.Bytes.{merkle_zero_value, hex_to_big_int, big_int_to_hex}
use railgun_go.Merkle.{Hash}
use railgun_go.UtxoTree.{tree_max_items, Leaf}
use railgun_go.UtxoTree.Store.{Leaves, list_leaves}

-- The global position of a leaf.
unfoldable pub get_global_tree_position : ℕ → ℕ → ℕ
get_global_tree_position tree index = tree * tree_max_items + index

unfoldable pub parse_hex_list : List Text → Result (List ℤ)
parse_hex_list [] = ok []
parse_hex_list (value ∷ values) = do
  n ← hex_to_big_int value
  rest ← parse_hex_list values
  ok (n ∷ rest)

-- A longer list is left as it is.
unfoldable pub pad_to_13 : List ℤ → List ℤ
pad_to_13 values = values ++ replicate (13 - length values) (pos merkle_zero_value)

-- `validateBigIntList`: no element is nil.
unfoldable pub validate_big_int_list : List (Option ℤ) → Result (List ℤ)
validate_big_int_list [] = ok []
validate_big_int_list (none ∷ values) = err value_required
validate_big_int_list (some n ∷ values) = do rest ← validate_big_int_list values; ok (n ∷ rest)

abbrev pub present : List ℤ → List (Option ℤ)
present [] = []
present (n ∷ values) = some n ∷ present values

module _ (poseidon : Hash) where
  unfoldable pub railgun_transaction_id_from_big_ints :
      List (Option ℤ) → List (Option ℤ) → Option ℤ → Result ℤ
  railgun_transaction_id_from_big_ints nullifiers commitments bound_params_hash = do
    spent ← validate_big_int_list nullifiers
    made ← validate_big_int_list commitments
    bound ← required bound_params_hash value_required
    nullifiers_hash ← poseidon (pad_to_13 spent)
    commitments_hash ← poseidon (pad_to_13 made)
    poseidon (nullifiers_hash ∷ commitments_hash ∷ bound ∷ [])

  unfoldable pub railgun_transaction_id : List Text → List Text → Text → Result ℤ
  railgun_transaction_id nullifiers commitments bound_params_hash = do
    spent ← parse_hex_list nullifiers
    made ← parse_hex_list commitments
    bound ← hex_to_big_int bound_params_hash
    railgun_transaction_id_from_big_ints (present spent) (present made) (some bound)

  unfoldable pub railgun_transaction_id_hex : List Text → List Text → Text → Result Text
  railgun_transaction_id_hex nullifiers commitments bound_params_hash = do
    id ← railgun_transaction_id nullifiers commitments bound_params_hash
    big_int_to_hex id 32 false

  unfoldable pub railgun_txid_leaf_hash : Option ℤ → ℕ → Option ℤ → Result Text
  railgun_txid_leaf_hash railgun_txid utxo_tree_in global_tree_position = do
    txid ← required railgun_txid value_required
    position ← required global_tree_position value_required
    hash ← poseidon (txid ∷ pos utxo_tree_in ∷ position ∷ [])
    big_int_to_hex hash 32 false

-- A leaf of a txid tree. Its tree and index are uint64.
pub record TxidLeaf : Type 0 where
  pub tree : ℕ
  pub index : ℕ
  pub hash : Text
  pub railgun_txid : Text
  pub block_number : ℕ

-- The loop over the leaves: the greatest position, if there is a leaf.
unfoldable pub max_position : Option ℕ → List TxidLeaf → Option ℕ
max_position found [] = found
max_position none (leaf ∷ leaves) =
    max_position (some (get_global_tree_position leaf.tree leaf.index)) leaves
max_position (some highest) (leaf ∷ leaves) =
    max_position
      (some (
        let position = get_global_tree_position leaf.tree leaf.index in
        if ltb highest position then position else highest))
      leaves

abbrev pub after_position : Option ℕ → Result (ℕ × ℕ)
after_position none = ok (0, 0)
after_position (some highest) =
    let next = highest + 1 in
    if ltb (next / tree_max_items) (2 ^ 64)
    then ok (next / tree_max_items, next % tree_max_items)
    else err position_overflow

-- `NextMerkleTreePosition`, on what `ListLeaves` returned.
unfoldable pub next_merkle_tree_position : Result (List TxidLeaf) → Result (ℕ × ℕ)
next_merkle_tree_position listed = do leaves ← listed; after_position (max_position none leaves)
