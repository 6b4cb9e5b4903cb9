-- ===== src/UtxoTree/Store/Verify.antt =====
-- pkg/utxotree/store.go: what holds of every store that the methods of `MemoryStore` can reach.
use railgun_go.Common.{ℕ, ◌≡◌, true, none, some, List, [], Text, ok, >>=-eq-ok, Context}
use railgun_go.Merkle.{Hash, IsFieldHash, MerkleProof, verify_proof}
use railgun_go.UtxoTree.{Leaf, validate_leaf, zero_hashes}
use railgun_go.UtxoTree.Zeros.{IsZeroTable-zero_hashes}
use railgun_go.UtxoTree.Proofs.{verify_proof-proof_from_leaves}
use railgun_go.UtxoTree.Store.{
  Leaves, tree_leaves, put_leaf, put_leaves, upsert_leaf, upsert_leaves, validate_leaves, get_leaf,
  root, proof, rollback, rollback_to_block,
}
use railgun_go.UtxoTree.Store.Laws.{
  IsStore, leaf_at, put_leaf-IsStore, put_leaves-IsStore, rollback-IsStore, tree_leaves-IsTree,
}

-- A call that writes to the store, whatever its context.
pub data Step (s : Leaves) : Leaves → Type 0 where
  upsert :
      {t : Leaves} (ctx : Context) (leaf : Leaf) → upsert_leaf ctx (some s) leaf ≡ ok t → Step s t
  upsert_all :
      {t : Leaves} (ctx : Context) (leaves : List Leaf)
      → upsert_leaves ctx (some s) leaves ≡ ok t
      → Step s t
  roll_back :
      {t : Leaves} (ctx : Context) (from_block : ℕ)
      → rollback_to_block ctx (some s) from_block ≡ ok t
      → Step s t

-- The stores that calls lead to from `NewMemoryStore`.
pub data Reach : Leaves → Type 0 where
  new : {s : Leaves} → s ≡ [] → Reach s
  next : {s t : Leaves} → Reach s → Step s t → Reach t

Step-IsStore : {s t : Leaves} → Step s t → IsStore s → IsStore t
unfolding upsert_leaf upsert_leaves rollback_to_block
Step-IsStore {s} {t} (upsert (some e) leaf h) inv = cc
Step-IsStore {s} {t} (upsert none leaf h) inv =
    let (u, valid, same) = >>=-eq-ok (validate_leaf leaf) _ h in
    let e : put_leaf leaf s ≡ t = cc same in rw (← e) (put_leaf-IsStore leaf s valid inv)
Step-IsStore {s} {t} (upsert_all (some e) leaves h) inv = cc
Step-IsStore {s} {t} (upsert_all none leaves h) inv =
    let (u, valid, same) = >>=-eq-ok (validate_leaves leaves) _ h in
    let e : put_leaves leaves s ≡ t = cc same in rw (← e) (put_leaves-IsStore leaves s valid inv)
Step-IsStore {s} {t} (roll_back (some e) b h) inv = cc
Step-IsStore {s} {t} (roll_back none b h) inv =
    let e : rollback b s ≡ t = cc h in rw (← e) (rollback-IsStore b s inv)

-- Every reachable store keeps its trees apart, and each leaf valid and under its own tree and
-- index.
pub Reach-IsStore : {s : Leaves} → Reach s → IsStore s
Reach-IsStore (new e) = rw e (tt, tt)
Reach-IsStore (next r step) = Step-IsStore step (Reach-IsStore r)

-- In every store that upserts, bulk upserts and rollbacks can reach, each leaf that `GetLeaf`
-- finds has a proof: `Proof` succeeds, its result carries the leaf's hash and the tree's `Root`,
-- and `VerifyProof` accepts it. The hash is any that maps two numbers into the field.
pub Reach-verify_proof :
    {poseidon : Hash} (field : IsFieldHash poseidon) {zeros : List Text}
    (table : zero_hashes poseidon ≡ ok zeros) {s : Leaves} (r : Reach s) (tree index : ℕ)
    (leaf : Leaf)
    → get_leaf none (some s) tree index ≡ ok (some leaf)
    → (p : MerkleProof) × (proof poseidon zeros none (some s) tree index ≡ ok p)
      × (verify_proof poseidon p ≡ ok true)
      × (p.leaf ≡ leaf.hash)
      × (root poseidon zeros none (some s) tree ≡ ok p.root)
unfolding get_leaf proof root
Reach-verify_proof field table {s} r tree index leaf found =
    let held : leaf_at tree index s ≡ some leaf = cc found in
    let valid = (tree_leaves-IsTree tree s (Reach-IsStore r)).1 in
    verify_proof-proof_from_leaves field (IsZeroTable-zero_hashes field _ table)
      (tree_leaves tree s) valid index leaf held
