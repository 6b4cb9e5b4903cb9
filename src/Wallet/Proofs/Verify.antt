-- ===== src/Wallet/Proofs/Verify.antt =====
-- pkg/wallet/utxo_tree.go: the proofs that a wallet gives are proofs of its UTXOs.
use mathlib.Core.Path.{subst}
use railgun_go.Common.{
  wrap, wrap-ok, in_txo_hash, in_proof_leaf, ℕ, ltb, not, ◌≡◌, refl, ap, sym, ◌∙◌, true, false,
  Bool-cases, Option-cases, inl, inr, Option, none, some, List, Text, is_blank, text_eq, text_eq→eq,
  text_eq_refl, ok, >>=-eq-ok, guard, required, required-eq-ok, store_required, missing_txo,
  checkpoints_required, manager_required, hash_required,
}
use railgun_go.Common.TextMap.{find}
use railgun_go.Crypto.Bytes.{format_hex_to_byte_length}
use railgun_go.Merkle.{Hash, IsFieldHash, MerkleProof, verify_proof}
use railgun_go.Poi.Manager.{Manager}
use railgun_go.UtxoTree.{Leaf, zero_hashes, tree_max_items, proof_from_leaves}
use railgun_go.UtxoTree.Store.{Leaves, get_leaf, proof, root}
use railgun_go.UtxoTree.Store.Laws.{leaf_at}
use railgun_go.UtxoTree.Store.Verify.{Reach, Reach-verify_proof}
use railgun_go.Wallet.State.{StoredTxo, Txos, get_txo}
use railgun_go.Wallet.Stores.{Wallet, validate}
use railgun_go.Wallet.Proofs.{utxo_merkle_proof_for_txo, utxo_merkle_proof}

-- Where there is a proof, there is a leaf.
proof-get_leaf :
    (poseidon : Hash) (zeros : List Text) (s : Leaves) (tree index : ℕ) (p : MerkleProof)
    → proof poseidon zeros none (some s) tree index ≡ ok p
    → (leaf : Leaf) × (get_leaf none (some s) tree index ≡ ok (some leaf))
unfolding proof proof_from_leaves get_leaf
proof-get_leaf poseidon zeros s tree index p e = elim (Option-cases (leaf_at tree index s)) [
  | inl absent ↦ elim (Bool-cases (ltb index tree_max_items)) [
    | inl small ↦ cc (rw (small, absent) at e)
    | inr large ↦ cc (rw large at e)
  ]
  | inr (leaf, held) ↦ (leaf, ap ok held)
]

validate-state :
    {T : Type 0} (wallet : Wallet T) (parts : Txos T × Manager)
    → validate (some wallet) ≡ ok parts
    → wallet.state ≡ some parts.0
unfolding validate
validate-state wallet parts e =
    let (txos, state, e1) = >>=-eq-ok (required wallet.state store_required) _ e in
    let (checkpoints, c, e2) = >>=-eq-ok (required wallet.checkpoints checkpoints_required) _ e1 in
    let (manager, m, e3) = >>=-eq-ok (required wallet.poi_manager manager_required) _ e2 in
    let (u, k, e4) = >>=-eq-ok wallet.keys _ e3 in
    let same : Path (Txos _ × Manager) (txos, manager) parts = cc e4 in
    required-eq-ok wallet.state store_required state ∙ ap (λ q. some q.0) same

module _ {poseidon : Hash} (field : IsFieldHash poseidon) {zeros : List Text}
    (table : zero_hashes poseidon ≡ ok zeros) {s : Leaves} (r : Reach s) {T : Type 0} where
  -- The proof is of a leaf with the hash of the UTXO, and leads to the root of its tree.
  abbrev pub Proves : StoredTxo T → MerkleProof → Type 0
  Proves txo p =
      (verify_proof poseidon p ≡ ok true)
      × (root poseidon zeros none (some s) txo.tree ≡ ok p.root)
      × (format_hex_to_byte_length p.leaf 32 false
          ≡ format_hex_to_byte_length txo.commitment_hash 32 false)

  utxo_merkle_proof_for_txo-Proves :
      (txo : StoredTxo T) (p : MerkleProof)
      → utxo_merkle_proof_for_txo poseidon zeros none (some s) txo ≡ ok p
      → Proves txo p
  unfolding utxo_merkle_proof_for_txo
  utxo_merkle_proof_for_txo-Proves txo p e =
      let (u, given, e1) =
        >>=-eq-ok (guard (not (is_blank txo.commitment_hash)) hash_required) _ e in
      let (q, proved, e2) =
        >>=-eq-ok (proof poseidon zeros none (some s) txo.tree txo.position) _ e1 in
      let (expected, x, e3) =
        >>=-eq-ok (wrap in_txo_hash (format_hex_to_byte_length txo.commitment_hash 32 false)) _
          e2 in
      let (got, g, e4) =
        >>=-eq-ok (wrap in_proof_leaf (format_hex_to_byte_length q.leaf 32 false)) _ e3 in
      let (leaf, held) = proof-get_leaf poseidon zeros s txo.tree txo.position q proved in
      let (made, is_made, verified, of_leaf, rooted) =
        Reach-verify_proof field table r txo.tree txo.position leaf held in
      let same : made ≡ q = cc (sym is_made ∙ proved) in
      elim (Bool-cases (text_eq got expected)) [
        | inl equal ↦
            let last : q ≡ p = cc (rw equal at e4) in
            subst (Proves txo) last (
              rw (← same) verified,
              rooted ∙ ap (λ m. ok m.root) same,
              wrap-ok in_proof_leaf (format_hex_to_byte_length q.leaf 32 false) g
                  ∙ ap ok (text_eq→eq got expected equal)
                  ∙ sym (
                      wrap-ok in_txo_hash (format_hex_to_byte_length txo.commitment_hash 32 false)
                        x),
            )
        | inr differs ↦ cc (rw differs at e4)
      ]

  get_txo-find :
      (txos : Txos T) (nullifier : Text) (found : Option (StoredTxo T))
      → get_txo none (some txos) nullifier ≡ ok found
      → find nullifier txos ≡ found
  unfolding get_txo
  get_txo-find txos nullifier found e = cc

  -- When `UTXOMerkleProof` of a wallet succeeds, whose tree store upserts and rollbacks can reach,
  -- the wallet has a UTXO at the nullifier, `VerifyProof` accepts the proof, its root is the
  -- `Root` of the tree of the UTXO, and its leaf is, padded to 32 bytes, the commitment hash of
  -- the UTXO. The hash is any that maps two numbers into the field.
  pub utxo_merkle_proof-Proves :
      (wallet : Wallet T) (nullifier : Text) (p : MerkleProof)
      → wallet.utxo_merkle_tree ≡ some s
      → utxo_merkle_proof poseidon zeros none (some wallet) nullifier ≡ ok p
      → (txos : Txos T) × (txo : StoredTxo T) × (wallet.state ≡ some txos)
        × (find nullifier txos ≡ some txo)
        × Proves txo p
  unfolding utxo_merkle_proof
  utxo_merkle_proof-Proves wallet nullifier p has_tree e =
      let (parts, valid, e1) = >>=-eq-ok (validate (some wallet)) _ e in
      let (leaves, here, e2) = >>=-eq-ok (required wallet.utxo_merkle_tree store_required) _ e1 in
      let (found, got, e3) = >>=-eq-ok (get_txo none (some parts.0) nullifier) _ e2 in
      let (txo, there, e4) = >>=-eq-ok (required found missing_txo) _ e3 in
      let present : wallet.utxo_merkle_tree ≡ some leaves =
        required-eq-ok wallet.utxo_merkle_tree store_required here in
      let tree : leaves ≡ s = cc (sym present ∙ has_tree) in
      let held : find nullifier parts.0 ≡ found = get_txo-find parts.0 nullifier found got in
      (
        parts.0,
        txo,
        validate-state wallet parts valid,
        held ∙ required-eq-ok found missing_txo there,
        utxo_merkle_proof_for_txo-Proves txo p (
            subst (λ l. utxo_merkle_proof_for_txo poseidon zeros none (some l) txo ≡ ok p) tree e4),
      )

  utxo_merkle_proof_for_txo-Holds :
      (txo : StoredTxo T) (leaf : Leaf) (hash : Text)
      → is_blank txo.commitment_hash ≡ false
      → get_leaf none (some s) txo.tree txo.position ≡ ok (some leaf)
      → format_hex_to_byte_length leaf.hash 32 false ≡ ok hash
      → format_hex_to_byte_length txo.commitment_hash 32 false ≡ ok hash
      → (p : MerkleProof) × (utxo_merkle_proof_for_txo poseidon zeros none (some s) txo ≡ ok p)
  unfolding utxo_merkle_proof_for_txo
  utxo_merkle_proof_for_txo-Holds txo leaf hash named held here there =
      let (made, is_made, verified, of_leaf, rooted) =
        Reach-verify_proof field table r txo.tree txo.position leaf held in
      let got : format_hex_to_byte_length made.leaf 32 false ≡ ok hash =
        ap (λ h. format_hex_to_byte_length h 32 false) of_leaf ∙ here in
      (made, rw (named, is_made, there, got, text_eq_refl hash) refl)

  -- With a context that is not cancelled, `UTXOMerkleProof` of a wallet that has all its parts
  -- succeeds for a UTXO with a commitment hash that stands in a reachable tree store as a leaf of
  -- the same hash, padded to 32 bytes. The hash is any that maps two numbers into the field.
  pub utxo_merkle_proof-found :
      (wallet : Wallet T) (txos : Txos T) (manager : Manager) (nullifier : Text) (txo : StoredTxo T)
      (leaf : Leaf) (hash : Text)
      → validate (some wallet) ≡ ok (txos, manager)
      → wallet.utxo_merkle_tree ≡ some s
      → find nullifier txos ≡ some txo
      → is_blank txo.commitment_hash ≡ false
      → get_leaf none (some s) txo.tree txo.position ≡ ok (some leaf)
      → format_hex_to_byte_length leaf.hash 32 false ≡ ok hash
      → format_hex_to_byte_length txo.commitment_hash 32 false ≡ ok hash
      → (p : MerkleProof) × (utxo_merkle_proof poseidon zeros none (some wallet) nullifier ≡ ok p)
  unfolding utxo_merkle_proof get_txo
  utxo_merkle_proof-found wallet txos manager nullifier txo leaf hash valid has_tree stored named
        held here there =
      let (p, proved) = utxo_merkle_proof_for_txo-Holds txo leaf hash named held here there in
      (p, rw (valid, has_tree, stored, proved) refl)
