-- ===== src/Merkle.antt =====
-- pkg/merkletree/merkletree.go: Merkle proofs over a two-input hash. `Poseidon` is a parameter of
-- the definitions: any hash with its interface, of which the proofs use `IsFieldHash`.
pub mod Binding
use railgun_go.Common.{
  ℕ, zero, suc, ◌+◌, ◌<◌, ◌==◌, ◌≡◌, if◌then◌else◌, Bool, false, List, [], ◌∷◌, map, Text, codes,
  replicate, text_eq, Result, ok, err, ◌>>=◌,
}
use railgun_go.Common.Int.{ℤ, pos, bit}
use railgun_go.Crypto.Bytes.{hex_to_big_int, big_int_to_hex, strip_0x, to_lower, snark_prime}

-- `railcrypto.Poseidon`
abbrev pub Hash : Type 0
Hash = List ℤ → Result ℤ

-- On two inputs of any sign the hash returns an element of the field.
pub record IsFieldHash (poseidon : Hash) : Type 0 where
  pub on_pair : (a b : ℤ) → (h : ℕ) × (poseidon (a ∷ b ∷ []) ≡ ok (pos h)) × (h < snark_prime)

-- TreeDepth
abbrev pub tree_depth : ℕ
tree_depth = 16

pub record MerkleProof : Type 0 where
  pub leaf : Text
  pub indices : Text
  pub elements : List Text
  pub root : Text

unfoldable pub trim_left_zeros : Text → Text
trim_left_zeros [] = []
trim_left_zeros (c ∷ s) = if c == b'0' then trim_left_zeros s else c ∷ s

abbrev zero_if_empty : Text → Text
zero_if_empty [] = b'0' ∷ []
zero_if_empty (c ∷ s) = map to_lower (c ∷ s)

unfoldable pub normalize_hex : Text → Text
unfolding trim_left_zeros
normalize_hex value = zero_if_empty (trim_left_zeros (strip_0x value))

module _ (poseidon : Hash) where
  unfoldable pub hash_left_right : ℤ → ℤ → Result ℤ
  hash_left_right left right = poseidon (left ∷ right ∷ [])

  -- The loop over `proof.Elements`, from element `i` on.
  unfoldable pub root_loop : ℤ → ℕ → ℤ → List Text → Result ℤ
  unfolding hash_left_right
  root_loop indices i current [] = ok current
  root_loop indices i current (element_hex ∷ elements) = do
    element ← hex_to_big_int element_hex
    next ←
        if bit indices i == 1
        then hash_left_right element current
        else hash_left_right current element
    root_loop indices (i + 1) next elements

  unfoldable pub calculate_root : MerkleProof → Result Text
  unfolding root_loop
  calculate_root proof = do
    indices ← hex_to_big_int proof.indices
    current ← hex_to_big_int proof.leaf
    root ← root_loop indices 0 current proof.elements
    big_int_to_hex root 32 false

  unfoldable pub verify_proof : MerkleProof → Result Bool
  unfolding calculate_root normalize_hex
  verify_proof proof = do
    root ← calculate_root proof
    ok (text_eq (normalize_hex root) (normalize_hex proof.root))

  unfoldable pub create_dummy_proof : Text → Result MerkleProof
  unfolding calculate_root
  create_dummy_proof leaf = do
    indices ← big_int_to_hex (pos 0) 32 false
    zero_hex ← big_int_to_hex (pos 0) 32 false
    let unrooted = dummy leaf indices zero_hex
    root ← calculate_root unrooted
    ok (record unrooted { root = root })
    where
      dummy : Text → Text → Text → MerkleProof
      dummy l i z = record { leaf = l; indices = i; elements = replicate tree_depth z; root = [] }
