-- ===== src/UtxoTree/Levels.antt =====
-- pkg/utxotree/store.go: the levels that `buildTreeLevels` returns, and the dense tree that they are.
use native.Mathlib.Nat.{add-zero, zero-add}
use railgun_go.Common.{
  ℕ, zero, suc, ◌+◌, ◌*◌, ◌<◌, ◌≡◌, refl, Option-cases, inl, inr, Option, none, some, List, [], ◌∷◌,
  Text, get_elem?, Result, ok, err, arith,
}
use railgun_go.Common.Int.{ℤ, pos}
use railgun_go.Common.Map
use railgun_go.Common.Map.{Map, contains}
use railgun_go.Crypto.Bytes.{hex_to_big_int}
use railgun_go.Merkle.{Hash, IsFieldHash, tree_depth}
use railgun_go.UtxoTree.{
  Leaf, Level, validate_leaf, hash_hex_pair, zero_hash, node_in, or_empty, node_at_level,
  level_zero, levels_above, build_tree_levels,
}
use railgun_go.UtxoTree.Zeros.{Readable, IsZeroTable, hash_hex_pair-Readable}
use railgun_go.UtxoTree.Level.{next_level_lem}

-- A map of leaves as a store keeps it: each is valid, and stands under its own index.
abbrev pub IsValidMap : Map Leaf → Type 0
IsValidMap = Map.Entries (λ i leaf. (validate_leaf leaf ≡ ok tt) × (leaf.index ≡ i))

-- The nodes from level `base` on: `k` levels up there is the node with index `p`.
abbrev node_up : List Text → List Level → ℕ → ℕ → ℕ → Text
node_up zeros levels base k p = node_in zeros (or_empty (get_elem? levels k)) (base + k) p

module _ {poseidon : Hash} (field : IsFieldHash poseidon) {zeros : List Text}
    (table : IsZeroTable poseidon zeros) where
  -- What the outer loop returns: `nodes`, and above it levels each hashed from the one below.
  record Stacked (n base : ℕ) (nodes : Level) (levels : List Level) : Type 0 where
    first : get_elem? levels 0 ≡ some nodes
    hashed :
        (k p : ℕ)
        → k < n
        → hash_hex_pair poseidon
            (node_up zeros levels base k (p * 2))
            (node_up zeros levels base k (p * 2 + 1))
          ≡ ok (node_up zeros levels base (suc k) p)

  Stacked-cons :
      (n base : ℕ) (nodes next : Level) (levels : List Level)
      → ((p : ℕ)
          → hash_hex_pair poseidon
              (node_in zeros nodes base (p * 2))
              (node_in zeros nodes base (p * 2 + 1))
            ≡ ok (node_in zeros next (base + 1) p))
      → Stacked n (base + 1) next levels
      → (k p : ℕ) → k < suc n
      → hash_hex_pair poseidon
          (node_up zeros (nodes ∷ levels) base k (p * 2))
          (node_up zeros (nodes ∷ levels) base k (p * 2 + 1))
        ≡ ok (node_up zeros (nodes ∷ levels) base (suc k) p)
  Stacked-cons n base nodes next levels round above zero p h = rw (add-zero, above.first) (round p)
  Stacked-cons n base nodes next levels round above (suc k) p h =
      let here : base + 1 + k ≡ base + suc k = omega arith in
      let up : base + 1 + suc k ≡ base + suc (suc k) = omega arith in
      rw (← up, ← here) (above.hashed k p (omega arith))

  levels_above-Stacked :
      (n base : ℕ) (nodes : Level)
      → base + n ≡ 16
      → ((i : ℕ) → Readable (node_in zeros nodes base i))
      → (levels : List Level) × (levels_above poseidon zeros n base nodes ≡ ok levels)
        × Stacked n base nodes levels
  unfolding levels_above
  levels_above-Stacked zero base nodes e readable =
      (nodes ∷ [], refl, record { first = refl; hashed = λ k p h. absurd (omega arith) })
  levels_above-Stacked (suc n) base nodes e readable =
      let (next, round, hashed) = next_level_lem field table nodes base (omega arith) readable in
      let readable' = λ (p : ℕ).
        hash_hex_pair-Readable field _ _ _ (readable (p * 2)) (readable (p * 2 + 1)) (hashed p) in
      let (levels, above, stacked) =
        levels_above-Stacked n (base + 1) next (omega arith) readable' in
      (
        nodes ∷ levels,
        rw (round, above),
        record { first = refl; hashed = Stacked-cons n base nodes next levels hashed stacked },
      )

-- A valid leaf has a readable hash.
validate_leaf-Readable : (leaf : Leaf) → validate_leaf leaf ≡ ok tt → Readable leaf.hash
unfolding validate_leaf
validate_leaf-Readable leaf h = (read (hex_to_big_int leaf.hash), ground arith)
  where
    read : Result ℤ → ℤ
    read (ok n) = n
    read (err e) = pos 0

abbrev hash_of : Option Leaf → Option Text
hash_of none = none
hash_of (some leaf) = some leaf.hash

-- Level 0 is made from valid leaves, and holds their hashes.
level_zero_lem :
    (leaves : Map Leaf)
    → IsValidMap leaves
    → (bottom : Level) × (level_zero leaves ≡ ok bottom)
      × ((i : ℕ) → Map.lookup i bottom ≡ hash_of (Map.lookup i leaves))
unfolding level_zero Map.lookup
level_zero_lem [] valid = ([], refl, λ i. refl)
level_zero_lem ((j, leaf) ∷ leaves) valid =
    let (rest, e, same) = level_zero_lem leaves valid.1 in
    (
      Map.insert j leaf.hash rest,
      rw (valid.0.0, e),
      λ i. ground (arith, Map.lookup-insert j i leaf.hash rest, same i),
    )

-- What stands under an index is valid and has that index.
pub IsValidMap-lookup :
    (leaves : Map Leaf) (i : ℕ) (leaf : Leaf)
    → IsValidMap leaves
    → Map.lookup i leaves ≡ some leaf
    → (validate_leaf leaf ≡ ok tt) × (leaf.index ≡ i)
IsValidMap-lookup leaves i leaf valid e = Map.lookup-Entries _ i leaf leaves valid e

-- The text of a leaf's node: its hash, or the zero hash where there is no leaf.
abbrev pub leaf_node : List Text → Option Leaf → Text
leaf_node zeros none = zero_hash zeros 0
leaf_node zeros (some leaf) = leaf.hash

node_in-bottom :
    (zeros : List Text) (leaves : Map Leaf) (bottom : Level)
    → ((i : ℕ) → Map.lookup i bottom ≡ hash_of (Map.lookup i leaves))
    → (i : ℕ) → node_in zeros bottom 0 i ≡ leaf_node zeros (Map.lookup i leaves)
unfolding node_in
node_in-bottom zeros leaves bottom same i = elim (Option-cases (Map.lookup i leaves)) [
  | inl e ↦ rw (same i, e)
  | inr (leaf, e) ↦ rw (same i, e)
]

module _ {poseidon : Hash} (field : IsFieldHash poseidon) {zeros : List Text}
    (table : IsZeroTable poseidon zeros) (leaves : Map Leaf) (valid : IsValidMap leaves) where
  pub leaf_node-Readable : (i : ℕ) → Readable (leaf_node zeros (Map.lookup i leaves))
  leaf_node-Readable i = elim (Option-cases (Map.lookup i leaves)) [
    | inl e ↦ rw e table.bottom
    | inr (leaf, e) ↦ rw e (validate_leaf-Readable leaf (IsValidMap-lookup leaves i leaf valid e).0)
  ]

  -- `buildTreeLevels` succeeds on valid leaves. At the bottom a node is its leaf's hash, or the zero
  -- hash where there is no leaf; every node above is the hash of the two below it.
  pub build_tree_levels_lem :
      (levels : List Level) × (build_tree_levels poseidon zeros leaves ≡ ok levels)
      × ((i : ℕ) → node_at_level zeros levels 0 i ≡ leaf_node zeros (Map.lookup i leaves))
      × ((level i : ℕ)
          → level < tree_depth
          → hash_hex_pair poseidon
              (node_at_level zeros levels level (i * 2))
              (node_at_level zeros levels level (i * 2 + 1))
            ≡ ok (node_at_level zeros levels (suc level) i))
  unfolding build_tree_levels node_at_level
  build_tree_levels_lem =
      let (bottom, b, same) = level_zero_lem leaves valid in
      let nodes = node_in-bottom zeros leaves bottom same in
      let readable : (i : ℕ) → Readable (node_in zeros bottom 0 i) =
        λ i. rw (nodes i) (leaf_node-Readable i) in
      let (levels, e, stacked) = levels_above-Stacked field table 16 0 bottom refl readable in
      (
        levels,
        rw (b, e),
        λ i. rw stacked.first (nodes i),
        λ level i h. rw (zero-add level, zero-add (suc level)) at (stacked.hashed level i h),
      )
