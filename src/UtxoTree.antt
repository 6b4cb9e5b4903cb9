-- ===== src/UtxoTree.antt =====
-- pkg/utxotree/store.go: the sparse Merkle tree that is built from the leaves of one tree.
-- `zeros` is the table that `zeroHashes` computes once; `zero_hashes` is that computation.
pub mod Zeros
pub mod Level
pub mod Levels
pub mod Proofs
pub mod Store
pub mod Files
pub mod Index
pub mod Tests
use railgun_go.Common.{
  wrap, wrap-ok, in_leaf_hash, in_commitment_hash, in_txo_hash, in_proof_leaf, is_blank, ℕ, zero,
  suc, ◌+◌, ◌-◌, ◌*◌, ◌/◌, ltb, ◌==◌, not, if◌then◌else◌, Bool, true, false, Option, none, some,
  List, [], ◌∷◌, Text, length, get_elem?, get_or, text_eq, Result, ok, err, ◌>>=◌, ◌>>◌, guard,
  index_exceeds_tree, leaf_hash_required, missing_leaf, negative_tree_or_index,
}
use Prim.Native.Nat.{bit_xor}
use railgun_go.Common.Int.{ℤ, pos, is_negative, pos_part}
use railgun_go.Common.Map
use railgun_go.Common.Map.{Map, contains}
use railgun_go.Crypto.Bytes.{
  hex_to_big_int, big_int_to_hex, merkle_zero_value, format_hex_to_byte_length,
}
use railgun_go.Merkle.{Hash, MerkleProof, tree_depth}

-- TreeMaxItems
abbrev pub tree_max_items : ℕ
tree_max_items = 65536

pub record Leaf : Type 0 where
  pub tree : ℕ
  pub index : ℕ
  pub hash : Text
  pub txid : Text
  pub commitment_type : Text
  pub block_number : ℕ

unfoldable pub validate_leaf : Leaf → Result (Unit {0})
validate_leaf leaf = do
  guard (ltb leaf.index tree_max_items) index_exceeds_tree
  guard (not (is_blank leaf.hash)) leaf_hash_required
  n ← wrap in_leaf_hash (hex_to_big_int leaf.hash)
  ok tt

-- `tree` and `index` are Go's signed `int`.
unfoldable pub leaf_from_commitment : Text → Text → Text → ℕ → ℤ → ℤ → Result Leaf
unfolding validate_leaf
leaf_from_commitment hash txid commitment_type block_number tree index = do
  guard (not (is_negative tree)) negative_tree_or_index
  guard (not (is_negative index)) negative_tree_or_index
  formatted_hash ← wrap in_commitment_hash (format_hex_to_byte_length hash 32 false)
  let leaf = made formatted_hash
  validate_leaf leaf
  ok leaf
  where
    made : Text → Leaf
    made h = record {
      tree = pos_part tree;
      index = pos_part index;
      hash = h;
      txid = txid;
      commitment_type = commitment_type;
      block_number = block_number;
    }

-- The nodes of one level by index; those that equal the level's zero hash are left out.
abbrev pub Level : Type 0
Level = Map Text

module _ (poseidon : Hash) where
  unfoldable pub hash_hex_pair : Text → Text → Result Text
  hash_hex_pair left right = do
    l ← hex_to_big_int left
    r ← hex_to_big_int right
    hash ← poseidon (l ∷ r ∷ [])
    big_int_to_hex hash 32 false

  -- The zero hashes above `last`, `n` of them.
  unfoldable pub zero_hashes_above : ℕ → Text → Result (List Text)
  unfolding hash_hex_pair
  zero_hashes_above zero last = ok []
  zero_hashes_above (suc n) last = do
    next ← hash_hex_pair last last
    rest ← zero_hashes_above n next
    ok (next ∷ rest)

  unfoldable pub zero_hashes : Result (List Text)
  unfolding zero_hashes_above
  zero_hashes = do
    first ← big_int_to_hex (pos merkle_zero_value) 32 false
    rest ← zero_hashes_above tree_depth first
    ok (first ∷ rest)

-- `ZeroHash`: a level past the table has the table's last entry.
unfoldable pub zero_hash : List Text → ℕ → Text
zero_hash zeros level =
    if ltb level (length zeros) then get_or zeros level [] else get_or zeros (length zeros - 1) []

abbrev value_or : Text → Option Text → Text
value_or z none = z
value_or z (some h) = h

unfoldable pub node_in : List Text → Level → ℕ → ℕ → Text
node_in zeros nodes level index = value_or (zero_hash zeros level) (Map.lookup index nodes)

abbrev pub or_empty : Option Level → Level
or_empty none = []
or_empty (some nodes) = nodes

unfoldable pub node_at_level : List Text → List Level → ℕ → ℕ → Text
unfolding node_in
node_at_level zeros levels level index =
    node_in zeros (or_empty (get_elem? levels level)) level index

-- The siblings on the path from `index` up, `n` levels from `level` on.
unfoldable pub proof_elements : List Text → List Level → ℕ → ℕ → ℕ → List Text
proof_elements zeros levels zero level index = []
proof_elements zeros levels (suc n) level index =
    node_at_level zeros levels level (bit_xor index 1)
    ∷ proof_elements zeros levels n (level + 1) (index / 2)

-- The `MerkleProof` that `proofFromLeaves` returns.
abbrev pub assembled : List Text → Leaf → ℕ → Text → List Level → MerkleProof
assembled zeros leaf index indices levels = record {
  leaf = leaf.hash;
  indices = indices;
  elements = proof_elements zeros levels tree_depth 0 index;
  root = node_at_level zeros levels tree_depth 0;
}

-- The first loop of `buildTreeLevels`: the leaves are validated, and their hashes are level 0.
unfoldable pub level_zero : Map Leaf → Result Level
unfolding validate_leaf
level_zero [] = ok []
level_zero ((index, leaf) ∷ leaves) = do
  validate_leaf leaf
  rest ← level_zero leaves
  ok (Map.insert index leaf.hash rest)

module _ (poseidon : Hash) (zeros : List Text) where
  abbrev store_node : ℕ → ℕ → Text → Level → Level
  store_node level parent hash next =
      if text_eq hash (zero_hash zeros (level + 1)) then next else Map.insert parent hash next

  -- The inner loop of `buildTreeLevels`, over the indices of `nodes` that are still to visit.
  unfoldable pub next_level : ℕ → Level → List ℕ → List ℕ → Level → Result Level
  next_level level nodes [] seen next = ok next
  next_level level nodes (index ∷ indices) seen next =
      let skip = next_level level nodes indices seen next in
      let parent = index / 2 in
      let left = node_in zeros nodes level (parent * 2) in
      let right = node_in zeros nodes level (parent * 2 + 1) in
      let visit = λ (hash : Text).
        next_level level nodes indices (parent ∷ seen) (store_node level parent hash next) in
      if contains seen parent then skip else (hash_hex_pair poseidon left right >>= visit)

  -- The outer loop, `n` levels above `nodes`.
  unfoldable pub levels_above : ℕ → ℕ → Level → Result (List Level)
  unfolding next_level
  levels_above zero level nodes = ok (nodes ∷ [])
  levels_above (suc n) level nodes = do
    next ← next_level level nodes (Map.keys nodes) [] []
    rest ← levels_above n (level + 1) next
    ok (nodes ∷ rest)

  unfoldable pub build_tree_levels : Map Leaf → Result (List Level)
  build_tree_levels leaves = do bottom ← level_zero leaves; levels_above tree_depth 0 bottom

  abbrev found_leaf : Option Leaf → Result Leaf
  found_leaf none = err missing_leaf
  found_leaf (some leaf) = ok leaf

  unfoldable pub proof_from_leaves : Map Leaf → ℕ → Result MerkleProof
  proof_from_leaves leaves index = do
    guard (ltb index tree_max_items) index_exceeds_tree
    leaf ← found_leaf (Map.lookup index leaves)
    levels ← build_tree_levels leaves
    indices ← big_int_to_hex (pos leaf.index) 32 false
    ok (assembled zeros leaf index indices levels)

  -- `Root` of a tree, from its leaves.
  unfoldable pub root_of_leaves : Map Leaf → Result Text
  root_of_leaves leaves = do
    levels ← build_tree_levels leaves
    ok (node_at_level zeros levels tree_depth 0)
