-- ===== src/Wallet/SyncTests.antt =====
-- The theorems on the wallet's rollback, proofs and marked events at concrete inputs.
use railgun_go.Wallet.Rollback.Errors.{error_of, error_of-rollback_wallet}
use railgun_go.Common.{
  utxo_merkle_tree_not_reorg, true, ℕ, ◌≡◌, refl, false, not, ◌&&◌, none, some, [], ◌∷◌, Text,
  codes, text_eq, is_blank, Option, ok,
}
use railgun_go.Common.Map
use railgun_go.Common.TextMap.{find, change_entries}
use railgun_go.Common.Trees.{filter_trees}
use railgun_go.Crypto.Bytes.{format_hex_to_byte_length}
use railgun_go.Events.Checkpoint.{
  Checkpoints, with_checkpoint, rollback_checkpoint, load_checkpoint, save_checkpoint,
}
use railgun_go.Merkle.{MerkleProof}
use railgun_go.Poi.Manager.{Manager, contains_text}
use railgun_go.Poi.Manager.Submit.{find_lists_for_new_pois}
use railgun_go.Txid.Trees.{rollback_txid_leaves}
use railgun_go.UtxoTree.Store.{rollback_to_block, rollback, is_kept}
use railgun_go.UtxoTree.Tests.{
  add_hash, add_hash-IsFieldHash, zeros, zeros_lem, leaf, store, reached, found,
}
use railgun_go.Wallet.State.{StoredTxo, Txos, rolled_back, rollback_txos}
use railgun_go.Wallet.SpentEvents.{mark_pois_proof_submitted}
use railgun_go.Wallet.SpentEvents.Marked.{find_lists_for_new_pois-mark_pois_proof_submitted}
use railgun_go.Wallet.Stores.{Wallet, Reorg, validate}
use railgun_go.Wallet.Rollback.{rollback_wallet_sync, rollback_wallet, rollback_memory_checkpoint}
use railgun_go.Wallet.Rollback.Before.{IsBefore, rollback_wallet_sync-IsBefore}
use railgun_go.Wallet.Proofs.{utxo_merkle_proof}
use railgun_go.Wallet.Proofs.Verify.{Proves, utxo_merkle_proof-Proves, utxo_merkle_proof-found}

-- A UTXO that stands in the tree.
abbrev txo : Text → ℕ → Text → Option ℕ → StoredTxo ℕ
txo nullifier block spend_txid spend_block = record {
  txid_version = [];
  tree = 0;
  position = 5;
  txid = [];
  timestamp = none;
  block_number = block;
  spend_txid = spend_txid;
  spend_block_number = spend_block;
  nullifier = nullifier;
  commitment_hash = codes "0x0A";
  note_public_key = [];
  note_random = [];
  token_hash = codes "t";
  token_data = 0;
  value = some 30;
  output_type = none;
  wallet_source = [];
  memo_text = [];
  sender_address = [];
  recipient_address = [];
  shield_fee = [];
  commitment_type = [];
  pois = none;
  blinded_commitment = [];
  transact_creation_railgun_txid = [];
}

abbrev manager : Manager
manager = record {
  lists = record { key = codes "a"; type = codes "Active"; name = []; description = [] } ∷ [];
  node = none;
  launch_blocks = λ chain. none;
}

abbrev no_checkpoints : Checkpoints
no_checkpoints key = none

abbrev reorg : Reorg
reorg = record {
  state = true;
  txid_store = true;
  txid_merkle_tree = true;
  utxo_merkle_tree = true;
  spent_poi_events = true;
}

abbrev wallet_of : Txos ℕ → Checkpoints → Wallet ℕ
wallet_of txos checkpoints = record {
  state = some txos;
  checkpoints = some checkpoints;
  keys = ok tt;
  poi_manager = some manager;
  txid_store = none;
  txid_merkle_tree = some [];
  utxo_merkle_tree = some store;
  spent_poi_events = none;
  reorg = reorg;
}

-- One UTXO was received late, the other spent late.
abbrev wallet : Wallet ℕ
wallet =
    wallet_of
      ((codes "a", txo (codes "a") 5 (codes "x") (some 12))
        ∷ (codes "b", txo (codes "b") 11 [] none)
        ∷ [])
      no_checkpoints

abbrev rolled_wallet : Wallet ℕ
rolled_wallet =
    wallet_of ((codes "a", txo (codes "a") 5 [] none) ∷ [])
      (with_checkpoint (codes "k") 10 no_checkpoints)

rolled_back_wallet : rollback_wallet_sync none wallet (codes "k") 10 ≡ ok rolled_wallet
unfolding rollback_wallet_sync rollback_txos rollback_txid_leaves rollback_to_block rollback
    rollback_memory_checkpoint rollback_checkpoint load_checkpoint save_checkpoint change_entries
    rolled_back filter_trees Map.filter_entries is_kept
rolled_back_wallet = refl

rollback_wallet_sync-IsBefore_example : IsBefore 10 (codes "k") rolled_wallet
rollback_wallet_sync-IsBefore_example =
    rollback_wallet_sync-IsBefore none wallet rolled_wallet (codes "k") 10 rolled_back_wallet

abbrev a : StoredTxo ℕ
a = txo (codes "a") 5 [] none

valid : validate (some rolled_wallet) ≡ ok ((codes "a", a) ∷ [], manager)
unfolding validate
valid = refl

stored : find (codes "a") ((codes "a", a) ∷ []) ≡ some a
unfolding find text_eq
stored = refl

abbrev padded : Text
padded = codes "000000000000000000000000000000000000000000000000000000000000000a"

of_leaf : format_hex_to_byte_length leaf.hash 32 false ≡ ok padded
unfolding format_hex_to_byte_length
of_leaf = refl

of_txo : format_hex_to_byte_length (codes "0x0A") 32 false ≡ ok padded
unfolding format_hex_to_byte_length
of_txo = refl

find_lists_for_new_pois-mark_pois_proof_submitted_example :
    contains_text
      (find_lists_for_new_pois (some manager) (mark_pois_proof_submitted none (codes "a" ∷ [])))
      (codes "a")
    ≡ (contains_text (find_lists_for_new_pois (some manager) none) (codes "a")
        && not (contains_text (codes "a" ∷ []) (codes "a") && not (is_blank (codes "a"))))
find_lists_for_new_pois-mark_pois_proof_submitted_example =
    find_lists_for_new_pois-mark_pois_proof_submitted (some manager) none (codes "a" ∷ [])
      (codes "a")

-- The proof that the wallet finds.
proved :
    (p : MerkleProof) × (utxo_merkle_proof add_hash zeros none (some rolled_wallet) (codes "a")
      ≡ ok p)
proved =
    utxo_merkle_proof-found add_hash-IsFieldHash zeros_lem reached rolled_wallet
      ((codes "a", a) ∷ []) manager (codes "a") a leaf padded valid refl stored refl found of_leaf
      of_txo

utxo_merkle_proof-Proves_example :
    (txos : Txos ℕ) × (t : StoredTxo ℕ) × (rolled_wallet.state ≡ some txos)
    × (find (codes "a") txos ≡ some t)
    × Proves add_hash-IsFieldHash zeros_lem reached t proved.0
utxo_merkle_proof-Proves_example =
    utxo_merkle_proof-Proves add_hash-IsFieldHash zeros_lem reached rolled_wallet (codes "a")
      proved.0 refl proved.1

-- Its UTXO tree has no rollback, and the state store has none either.
abbrev fixed_wallet : Wallet ℕ
fixed_wallet = record rolled_wallet {
  reorg = record reorg { utxo_merkle_tree = false; state = false };
}

valid_fixed : validate (some fixed_wallet) ≡ ok ((codes "a", a) ∷ [], manager)
unfolding validate
valid_fixed = refl

error_of-rollback_wallet_example :
    error_of (rollback_wallet none (some fixed_wallet) [] 10) ≡ some utxo_merkle_tree_not_reorg
error_of-rollback_wallet_example =
    error_of-rollback_wallet none fixed_wallet ((codes "a", a) ∷ [], manager) [] 10 valid_fixed
