-- ===== src/UtxoTree/Tests.antt =====
-- The theorems on the Merkle trees at concrete inputs, with a sum in place of the hash.
use railgun_go.Common.{
  ◌+◌, ◌*◌, ◌%◌, ◌≡◌, ◌⊎◌, refl, true, none, some, List, [], ◌∷◌, Text, codes, ok, err, arith,
  hash_arity,
}
use railgun_go.Common.Int.{ℤ, pos, mod_ℤ}
use railgun_go.Common.Map
use railgun_go.Crypto.Bytes.{snark_prime, hex_to_big_int, big_int_to_hex}
use railgun_go.Crypto.Bytes.RoundTrip.{hex_to_big_int-big_int_to_hex}
use railgun_go.Merkle.{Hash, IsFieldHash, MerkleProof, verify_proof, calculate_root}
use railgun_go.Merkle.Binding.{Collision, calculate_root-binding}
use railgun_go.UtxoTree.{Leaf, validate_leaf, zero_hashes}
use railgun_go.UtxoTree.Zeros.{zero_hashes-IsZeroTable}
use railgun_go.UtxoTree.Store.{
  Leaves, upsert_leaf, rollback_to_block, get_leaf, proof, root, put_leaf, tree_leaves,
}
use railgun_go.UtxoTree.Store.Laws.{IsStore, get_leaf-upsert_leaf, get_leaf-rollback_to_block}
use railgun_go.UtxoTree.Store.Verify.{Reach, new, next, upsert, Reach-IsStore, Reach-verify_proof}

-- A hash of two inputs into the field.
abbrev pub add_hash : Hash
add_hash (a ∷ b ∷ []) = ok (pos ((mod_ℤ a snark_prime + 2 * mod_ℤ b snark_prime + 1) % snark_prime))
add_hash _ = err hash_arity

pub add_hash-IsFieldHash : IsFieldHash add_hash
add_hash-IsFieldHash = record { on_pair = λ a b. (_, refl, omega arith) }

abbrev pub zeros : List Text
zeros = (zero_hashes-IsZeroTable add_hash-IsFieldHash).0

pub zeros_lem : zero_hashes add_hash ≡ ok zeros
zeros_lem = (zero_hashes-IsZeroTable add_hash-IsFieldHash).1

abbrev pub leaf : Leaf
leaf = record {
  tree = 0;
  index = 5;
  hash = codes "0a";
  txid = [];
  commitment_type = [];
  block_number = 9;
}

abbrev pub store : Leaves
store = (0, (5, leaf) ∷ []) ∷ []

upserted : upsert_leaf none (some []) leaf ≡ ok store
unfolding upsert_leaf validate_leaf put_leaf hex_to_big_int Map.insert Map.lookup
upserted = refl

pub reached : Reach store
reached = next (new refl) (upsert none leaf upserted)

pub found : get_leaf none (some store) 0 5 ≡ ok (some leaf)
unfolding get_leaf tree_leaves Map.lookup
found = refl

Reach-verify_proof_example :
    (p : MerkleProof) × (proof add_hash zeros none (some store) 0 5 ≡ ok p)
    × (verify_proof add_hash p ≡ ok true)
    × (p.leaf ≡ codes "0a")
    × (root add_hash zeros none (some store) 0 ≡ ok p.root)
Reach-verify_proof_example =
    Reach-verify_proof add_hash-IsFieldHash zeros_lem reached 0 5 leaf found

get_leaf-upsert_leaf_example : get_leaf none (some store) 0 6 ≡ get_leaf none (some []) 0 6
get_leaf-upsert_leaf_example = get_leaf-upsert_leaf [] store leaf 0 6 upserted

get_leaf-rollback_to_block_example :
    (after : Leaves) × (rollback_to_block none (some store) 9 ≡ ok after)
    × (get_leaf none (some after) 0 5 ≡ ok none)
unfolding tree_leaves Map.lookup
get_leaf-rollback_to_block_example = get_leaf-rollback_to_block store 9 0 5 (Reach-IsStore reached)

hex_to_big_int-big_int_to_hex_example :
    (s : Text) × (big_int_to_hex (pos 0x12345) 2 true ≡ ok s) × (hex_to_big_int s ≡ ok (pos 0x2345))
hex_to_big_int-big_int_to_hex_example = hex_to_big_int-big_int_to_hex 0x12345 2 true (omega arith)

-- Two proofs of one leaf.
abbrev short_proof : MerkleProof
short_proof = record {
  leaf = codes "0a";
  indices = codes "0";
  elements = codes "01" ∷ [];
  root = [];
}

abbrev short_root : Text
short_root = codes "000000000000000000000000000000000000000000000000000000000000000d"

short_proof-root : calculate_root add_hash short_proof ≡ ok short_root
unfolding calculate_root hex_to_big_int big_int_to_hex
short_proof-root = refl

calculate_root-binding_example :
    ((v : ℤ) × (hex_to_big_int (codes "0a") ≡ ok v) × (hex_to_big_int (codes "0a") ≡ ok v))
    ⊎ ((indices : ℤ) × (v : ℤ) × (w : ℤ) × (hex_to_big_int (codes "0") ≡ ok indices)
        × (hex_to_big_int (codes "0a") ≡ ok v)
        × (hex_to_big_int (codes "0a") ≡ ok w)
        × Collision add_hash indices 0 v (codes "01" ∷ []) w (codes "01" ∷ []))
calculate_root-binding_example =
    calculate_root-binding add_hash-IsFieldHash short_proof short_proof short_root refl refl
      (omega arith) short_proof-root short_proof-root

Reach-IsStore_example : IsStore store
Reach-IsStore_example = Reach-IsStore reached
