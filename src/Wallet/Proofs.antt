-- ===== src/Wallet/Proofs.antt =====
-- pkg/wallet/utxo_tree.go: the Merkle proof of a UTXO of the wallet.
pub mod Verify
use railgun_go.Common.{
  ℕ, not, true, false, Option, none, some, List, Text, is_blank, text_eq, Result, ok, err, ◌>>=◌,
  ◌>>◌, guard, required, Context, store_required, missing_txo, hash_required, proof_leaf_differs,
  wrap, in_txo_hash, in_proof_leaf,
}
use railgun_go.Crypto.Bytes.{format_hex_to_byte_length}
use railgun_go.Merkle.{Hash, MerkleProof}
use railgun_go.UtxoTree.Store.{Leaves, proof, root}
use railgun_go.Wallet.State.{StoredTxo, get_txo}
use railgun_go.Wallet.Stores.{Wallet, validate}

module _ (poseidon : Hash) (zeros : List Text) {T : Type 0} where
  unfoldable pub utxo_merkle_root : Context → Option (Wallet T) → ℕ → Result Text
  utxo_merkle_root ctx wallet tree = do
    parts ← validate wallet
    w ← required wallet store_required
    leaves ← required w.utxo_merkle_tree store_required
    root poseidon zeros ctx (some leaves) tree

  unfoldable pub utxo_merkle_proof_for_txo :
      Context → Option Leaves → StoredTxo T → Result MerkleProof
  utxo_merkle_proof_for_txo ctx store txo = do
    leaves ← required store store_required
    guard (not (is_blank txo.commitment_hash)) hash_required
    p ← proof poseidon zeros ctx (some leaves) txo.tree txo.position
    expected ← wrap in_txo_hash (format_hex_to_byte_length txo.commitment_hash 32 false)
    got ← wrap in_proof_leaf (format_hex_to_byte_length p.leaf 32 false)
    guard (text_eq got expected) proof_leaf_differs
    ok p

  unfoldable pub utxo_merkle_proof : Context → Option (Wallet T) → Text → Result MerkleProof
  utxo_merkle_proof ctx wallet nullifier = do
    parts ← validate wallet
    w ← required wallet store_required
    leaves ← required w.utxo_merkle_tree store_required
    found ← get_txo ctx (some parts.0) nullifier
    txo ← required found missing_txo
    utxo_merkle_proof_for_txo ctx (some leaves) txo
