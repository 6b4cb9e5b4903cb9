-- ===== src/Txid/Tests.antt =====
-- The theorems on positions in the txid trees at concrete inputs.
use railgun_go.Common.{
  none, some, text_eq, ℕ, ◌<◌, ◌≡◌, refl, List, [], ◌∷◌, All, codes, Result, ok, arith,
}
use railgun_go.Common.Int.{pos}
use railgun_go.Crypto.Bytes.{hex_to_big_int, big_int_to_hex}
use railgun_go.Merkle.{Hash}
use railgun_go.Txid.Append.{
  append_transaction_leaf, merkle_leaf_from_transaction, transaction_leaf_hash,
  append_transaction_leaf-new,
}
use railgun_go.Txid.{
  TxidLeaf, railgun_txid_leaf_hash, get_global_tree_position, max_position,
  next_merkle_tree_position,
}
use railgun_go.Txid.Transactions.{
  Transaction, Transactions, get_by_railgun_txid, rollback_transactions,
}
use railgun_go.Txid.Trees.{TxidLeaves, get_txid_leaf, rollback_txid_leaves}
use railgun_go.Txid.Reorg.{
  get_by_railgun_txid-rollback_transactions, get_txid_leaf-rollback_txid_leaves,
}
use railgun_go.Common.Map
use railgun_go.Common.Map.{IsMap}
use railgun_go.Common.TextMap.{IsTextMap, find}
use railgun_go.Common.Trees.{tree_leaves}
use railgun_go.Txid.Positions.{next_merkle_tree_position-free, get_global_tree_position-injective}

abbrev leaf : ℕ → ℕ → TxidLeaf
leaf tree index = record {
  tree = tree;
  index = index;
  hash = [];
  railgun_txid = [];
  block_number = 0;
}

-- The last leaf of tree 0 is taken: the next one opens tree 1.
next_tree : next_merkle_tree_position (ok (leaf 0 65535 ∷ leaf 0 3 ∷ [])) ≡ ok (1, 0)
unfolding next_merkle_tree_position max_position get_global_tree_position
next_tree = refl

next_merkle_tree_position-free_example :
    (0 < 65536)
    × All
        (λ l. get_global_tree_position l.tree l.index < get_global_tree_position 1 0)
        (leaf 0 65535 ∷ leaf 0 3 ∷ [])
next_merkle_tree_position-free_example =
    next_merkle_tree_position-free (leaf 0 65535 ∷ leaf 0 3 ∷ []) 1 0 next_tree

get_global_tree_position-injective_example : ◌≡◌ {A = ℕ} 2 2 × ◌≡◌ {A = ℕ} 7 7
get_global_tree_position-injective_example =
    get_global_tree_position-injective 2 7 2 7 (omega arith) (omega arith) refl

abbrev const_hash : Hash
const_hash inputs = ok (pos 5)

abbrev transaction : Transaction
transaction = record {
  railgun_txid = codes "0a";
  block_number = 9;
  utxo_tree_in = pos 0;
  utxo_tree_out = pos 0;
  utxo_batch_start_position_out = pos 3;
  version = [];
  txid = [];
  commitments = [];
  nullifiers = [];
  bound_params_hash = [];
  unshield = none;
  verification_hash = [];
}

-- A store that is the list of its leaves.
abbrev listed : List TxidLeaf → Result (List TxidLeaf)
listed store = ok store

abbrev put : List TxidLeaf → TxidLeaf → Result (List TxidLeaf)
put store l = ok (l ∷ store)

abbrev appended_leaf : TxidLeaf
appended_leaf = record {
  tree = 1;
  index = 0;
  hash = codes "0000000000000000000000000000000000000000000000000000000000000005";
  railgun_txid = codes "0a";
  block_number = 9;
}

appended :
    append_transaction_leaf const_hash listed put (leaf 0 65535 ∷ []) transaction
    ≡ ok (appended_leaf, appended_leaf ∷ leaf 0 65535 ∷ [])
unfolding append_transaction_leaf merkle_leaf_from_transaction transaction_leaf_hash
    railgun_txid_leaf_hash next_merkle_tree_position max_position get_global_tree_position
    hex_to_big_int big_int_to_hex
appended = refl

append_transaction_leaf-new_example :
    (0 < 65536)
    × All
        (λ old. get_global_tree_position old.tree old.index < get_global_tree_position 1 0)
        (leaf 0 65535 ∷ [])
    × (put (leaf 0 65535 ∷ []) appended_leaf ≡ ok (appended_leaf ∷ leaf 0 65535 ∷ []))
append_transaction_leaf-new_example =
    append_transaction_leaf-new const_hash listed put (leaf 0 65535 ∷ [])
      (appended_leaf ∷ leaf 0 65535 ∷ []) transaction (leaf 0 65535 ∷ []) appended_leaf refl
      appended

abbrev late : Transaction
late = record transaction { block_number = 12; railgun_txid = codes "0b" }

abbrev transactions : Transactions
transactions = (codes "0a", transaction) ∷ (codes "0b", late) ∷ []

distinct : IsTextMap transactions
unfolding find text_eq
distinct = (refl, (refl, tt))

found_late : get_by_railgun_txid none (some transactions) (codes "0b") ≡ ok (some late)
unfolding get_by_railgun_txid find text_eq
found_late = refl

get_by_railgun_txid-rollback_transactions_example :
    (after : Transactions) × (rollback_transactions none (some transactions) 10 ≡ ok after)
    × (get_by_railgun_txid none (some after) (codes "0b") ≡ ok none)
get_by_railgun_txid-rollback_transactions_example =
    get_by_railgun_txid-rollback_transactions transactions (some late) 10 (codes "0b") distinct
      found_late

abbrev late_leaf : TxidLeaf
late_leaf = record (leaf 1 4) { block_number = 12 }

abbrev leaves : TxidLeaves
leaves = (0, (3, leaf 0 3) ∷ []) ∷ (1, (0, leaf 1 0) ∷ (4, late_leaf) ∷ []) ∷ []

distinct_trees : IsMap leaves
unfolding Map.lookup
distinct_trees = (refl, (refl, tt))

distinct_leaves : Map.Entries (λ t ls. IsMap ls) leaves
unfolding Map.lookup
distinct_leaves = ((refl, tt), ((refl, (refl, tt)), tt))

found_leaf : get_txid_leaf none (some leaves) 1 0 ≡ ok (some (leaf 1 0))
unfolding get_txid_leaf tree_leaves Map.lookup
found_leaf = refl

get_txid_leaf-rollback_txid_leaves_example :
    (after : TxidLeaves) × (rollback_txid_leaves none (some leaves) 10 ≡ ok after)
    × (get_txid_leaf none (some after) 1 0 ≡ ok (some (leaf 1 0)))
get_txid_leaf-rollback_txid_leaves_example =
    get_txid_leaf-rollback_txid_leaves leaves (some (leaf 1 0)) 10 1 0 distinct_trees
      distinct_leaves found_leaf
