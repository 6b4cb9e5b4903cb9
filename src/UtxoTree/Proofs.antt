-- ===== src/UtxoTree/Proofs.antt =====
-- pkg/utxotree/store.go and pkg/merkletree/merkletree.go: the proofs that the tree hands out verify.
use Prim.Native.Nat.{bit_xor}
use native.Mathlib.Nat.{pow-suc, div-div-eq-div-mul}
use native.Mathlib.Numerals.{add-one}
use railgun_go.Common.{
  ℕ, zero, suc, ◌+◌, ◌*◌, ◌/◌, ◌%◌, ◌^◌, ◌<◌, ◌≤◌, ◌≡◌, refl, ap, ◌∙◌, true, ltb, ltb→lt, ◌==◌,
  Bool-cases, inl, inr, some, List, [], ◌∷◌, Text, ok, if◌then◌else◌, arith,
}
use railgun_go.Common.Bits.{bit_xor-one}
use railgun_go.Common.Int.{ℤ, pos}
use railgun_go.Common.Map
use railgun_go.Common.Map.{Map}
use railgun_go.Crypto.Bytes.{hex_to_big_int}
use railgun_go.Merkle.{
  Hash, IsFieldHash, MerkleProof, tree_depth, hash_left_right, root_loop, calculate_root,
  verify_proof,
}
use railgun_go.Merkle.Binding.{verify_of_root}
use railgun_go.UtxoTree.{
  Leaf, Level, validate_leaf, root_of_leaves, assembled, hash_hex_pair, node_at_level,
  build_tree_levels, proof_elements, proof_from_leaves, tree_max_items,
}
use railgun_go.UtxoTree.Zeros.{
  Readable, Written, Written-lt, IsZeroTable, hash_hex_pair_lem, hash_hex_pair-Readable,
}
use railgun_go.UtxoTree.Levels.{
  IsValidMap, IsValidMap-lookup, build_tree_levels_lem, leaf_node, leaf_node-Readable,
}

-- The nodes of a tree: each is the hash of the two below it.
abbrev IsHashed : Hash → List Text → List Level → Type 0
IsHashed poseidon zeros levels =
    (level i : ℕ)
    → level < tree_depth
    → hash_hex_pair poseidon (node_at_level zeros levels level (i * 2))
        (node_at_level zeros levels level (i * 2 + 1))
      ≡ ok (node_at_level zeros levels (suc level) i)

path_up : (index level i : ℕ) → i ≡ index / 2 ^ level → i / 2 ≡ index / 2 ^ (level + 1)
path_up index level i e = rw (add-one, pow-suc, e) (div-div-eq-div-mul index (2 ^ level) 2)

module _ {poseidon : Hash} (field : IsFieldHash poseidon) (zeros : List Text) (levels : List Level)
    (hashed : IsHashed poseidon zeros levels) where
  pair_up :
      (level q : ℕ) (a b : ℤ)
      → level < tree_depth
      → hex_to_big_int (node_at_level zeros levels level (q * 2)) ≡ ok a
      → hex_to_big_int (node_at_level zeros levels level (q * 2 + 1)) ≡ ok b
      → (h : ℕ) × (poseidon (a ∷ b ∷ []) ≡ ok (pos h))
        × Written h (node_at_level zeros levels (suc level) q)
  pair_up level q a b l left right =
      let (h, s, e, pair, w) = hash_hex_pair_lem field _ _ a b left right in
      let same : s ≡ node_at_level zeros levels (suc level) q = cc (pair, hashed level q l) in
      (h, e, rw (← same) w)

  -- One round of `CalculateRoot`, with the sibling that the proof holds, goes from a node to its
  -- parent.
  up_one :
      (level i : ℕ) (v : ℤ)
      → level < tree_depth
      → ((j : ℕ) → Readable (node_at_level zeros levels level j))
      → hex_to_big_int (node_at_level zeros levels level i) ≡ ok v
      → (sibling : ℤ) × (h : ℕ) × (hex_to_big_int (node_at_level zeros levels level (bit_xor i 1))
          ≡ ok sibling)
        × ((if i % 2 == 1
              then hash_left_right poseidon sibling v
              else hash_left_right poseidon v sibling)
            ≡ ok (pos h))
        × Written h (node_at_level zeros levels (suc level) (i / 2))
  unfolding hash_left_right
  up_one level i v l readable e = elim (Bool-cases (i % 2 == 1)) [
    | inl odd ↦
        let (s, r) = readable (i / 2 * 2) in
        let self : i / 2 * 2 + 1 ≡ i = ground arith in
        let other : bit_xor i 1 ≡ i / 2 * 2 = ground (arith, bit_xor-one i) in
        let (h, p, w) = pair_up level (i / 2) s v l r (rw self e) in (s, h, rw other r, rw odd p, w)
    | inr even ↦
        let (s, r) = readable (i / 2 * 2 + 1) in
        let self : i / 2 * 2 ≡ i = ground arith in
        let other : bit_xor i 1 ≡ i / 2 * 2 + 1 = ground (arith, bit_xor-one i) in
        let (h, p, w) = pair_up level (i / 2) v s l (rw self e) r in
        (s, h, rw other r, rw even p, w)
  ]

  Readable-up :
      ((j : ℕ) → Readable (node_at_level zeros levels 0 j))
      → (level : ℕ) → level ≤ tree_depth
      → (j : ℕ) → Readable (node_at_level zeros levels level j)
  Readable-up bottom zero l j = bottom j
  Readable-up bottom (suc level) l j =
      let below = Readable-up bottom level (omega arith) in
      hash_hex_pair-Readable field _ _ _ (below (j * 2)) (below (j * 2 + 1))
        (hashed level j (omega arith))

  module _ (bottom : (j : ℕ) → Readable (node_at_level zeros levels 0 j)) (index : ℕ) where
    -- The loop of `CalculateRoot`, run over the siblings that are left, ends at the root.
    walk :
        (n level i : ℕ) (h : ℕ)
        → level + n ≡ tree_depth
        → i ≡ index / 2 ^ level
        → Written h (node_at_level zeros levels level i)
        → (r : ℕ) × (root_loop poseidon
              (pos index)
              level
              (pos h)
              (proof_elements zeros levels n level i)
            ≡ ok (pos r))
          × Written r (node_at_level zeros levels tree_depth (index / 2 ^ tree_depth))
    unfolding root_loop proof_elements
    walk zero level i h e path w =
        let top : level ≡ tree_depth = omega arith in
        let here : i ≡ index / 2 ^ tree_depth = rw top at path in (h, refl, rw (top, here) at w)
    walk (suc n) level i h e path w =
        let (s, h', r, step, w') =
          up_one level i (pos h) (omega arith) (Readable-up bottom level (omega arith)) w.read in
        let (root, e', done) =
          walk n (level + 1) (i / 2) h' (omega arith) (path_up index level i path)
            (rw (← add-one level) at w') in
        (root, rw (r, ← path, step) e', done)

    -- The whole loop, from a leaf that `v` reads.
    climb :
        (v : ℤ)
        → index < tree_max_items
        → hex_to_big_int (node_at_level zeros levels 0 index) ≡ ok v
        → (root : ℕ) × (root_loop poseidon
              (pos index)
              0
              v
              (proof_elements zeros levels tree_depth 0 index)
            ≡ ok (pos root))
          × Written root (node_at_level zeros levels tree_depth 0)
    unfolding root_loop proof_elements
    climb v small leaf_v =
        let (s, h, r, step, up) = up_one 0 index v (omega arith) bottom leaf_v in
        let (root, loop, done) = walk 15 1 (index / 2) h refl refl up in
        let at_root : index / 2 ^ tree_depth ≡ 0 = omega arith in
        let low : index / 1 ≡ index = omega arith in
        (root, rw (r, low, step) loop, rw at_root at done)

module _ {poseidon : Hash} (field : IsFieldHash poseidon) {zeros : List Text}
    (table : IsZeroTable poseidon zeros) (leaves : Map Leaf) (valid : IsValidMap leaves) (index : ℕ)
    (leaf : Leaf) (found : Map.lookup index leaves ≡ some leaf) where
  in_range : ltb index tree_max_items ≡ true
  unfolding validate_leaf
  in_range = let (ok_leaf, same) = IsValidMap-lookup leaves index leaf valid found in ground arith

  levels_of_leaves :
      (levels : List Level) × (build_tree_levels poseidon zeros leaves ≡ ok levels)
      × (node_at_level zeros levels 0 index ≡ leaf.hash)
      × ((j : ℕ) → Readable (node_at_level zeros levels 0 j))
      × IsHashed poseidon zeros levels
  levels_of_leaves =
      let (levels, e, nodes, hashed) = build_tree_levels_lem field table leaves valid in
      (
        levels,
        e,
        nodes index ∙ ap (leaf_node zeros) found,
        λ j. rw (nodes j) (leaf_node-Readable field table leaves valid j),
        hashed,
      )

  -- A tree hands out a proof for every leaf that it holds; the proof has the leaf's hash and the
  -- tree's root, and `CalculateRoot` recomputes that root from it.
  proof_from_leaves-root :
      (proof : MerkleProof) × (proof_from_leaves poseidon zeros leaves index ≡ ok proof)
      × (calculate_root poseidon proof ≡ ok proof.root)
      × (proof.leaf ≡ leaf.hash)
      × (root_of_leaves poseidon zeros leaves ≡ ok proof.root)
  unfolding proof_from_leaves calculate_root root_of_leaves
  proof_from_leaves-root =
      let (levels, e, at_leaf, bottom, hashed) = levels_of_leaves in
      let (v, leaf_v) = bottom index in
      let small : index < tree_max_items = ltb→lt index tree_max_items in_range in
      let (indices, w) = Written-lt index (omega arith) in
      let (root, loop, top) = climb field zeros levels hashed bottom index v small leaf_v in
      let same = (IsValidMap-lookup leaves index leaf valid found).1 in
      (
        assembled zeros leaf index indices levels,
        rw (in_range, found, e, same, w.printed),
        rw (w.read, ← at_leaf, leaf_v, loop) top.printed,
        refl,
        rw e,
      )

  -- For every leaf that a valid tree holds, `proofFromLeaves` succeeds. Its proof carries the leaf's
  -- hash and the root that `Root` returns, and `VerifyProof` accepts it.
  pub verify_proof-proof_from_leaves :
      (proof : MerkleProof) × (proof_from_leaves poseidon zeros leaves index ≡ ok proof)
      × (verify_proof poseidon proof ≡ ok true)
      × (proof.leaf ≡ leaf.hash)
      × (root_of_leaves poseidon zeros leaves ≡ ok proof.root)
  verify_proof-proof_from_leaves =
      let (proof, made, root, same, top) = proof_from_leaves-root in
      (proof, made, verify_of_root poseidon proof root, same, top)
