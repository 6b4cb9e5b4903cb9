-- ===== src/Txid/Positions.antt =====
-- pkg/txid/merkletree.go: the next position is free, and it is the first after all leaves.
use railgun_go.Common.{
  ℕ, ◌+◌, ◌/◌, ◌%◌, ◌^◌, ◌<◌, ◌≤◌, ◌≡◌, refl, ltb, Bool-cases, inl, inr, some, List, [], ◌∷◌, All,
  All-map, ap, ok, arith,
}
use railgun_go.UtxoTree.{tree_max_items}
use railgun_go.Txid.{
  TxidLeaf, get_global_tree_position, max_position, after_position, next_merkle_tree_position,
}

abbrev position_of : TxidLeaf → ℕ
position_of leaf = get_global_tree_position leaf.tree leaf.index

max_position-All :
    (highest : ℕ) (leaves : List TxidLeaf)
    → (max : ℕ) × (max_position (some highest) leaves ≡ some max)
      × (highest ≤ max)
      × All (λ leaf. position_of leaf ≤ max) leaves
unfolding max_position
max_position-All highest [] = (highest, refl, omega arith, tt)
max_position-All highest (leaf ∷ leaves) = elim (Bool-cases (ltb highest (position_of leaf))) [
  | inl higher ↦
      let (max, found, above, all) = max_position-All (position_of leaf) leaves in
      (max, rw higher found, ground (arith, above, higher), (above, all))
  | inr lower ↦
      let (max, found, above, all) = max_position-All highest leaves in
      (max, rw lower found, above, (ground (arith, above, lower), all))
]

after_position-at :
    (highest tree index : ℕ)
    → after_position (some highest) ≡ ok (tree, index)
    → (index < tree_max_items) × (get_global_tree_position tree index ≡ highest + 1)
unfolding get_global_tree_position
after_position-at highest tree index e =
    elim (Bool-cases (ltb ((highest + 1) / tree_max_items) (2 ^ 64))) [
      | inl fits ↦
          let same : Path (ℕ × ℕ) ((highest + 1) / tree_max_items, (highest + 1) % tree_max_items)
              (tree, index) =
            cc (rw fits at e) in
          let t : (highest + 1) / tree_max_items ≡ tree = ap (λ p. p.0) same in
          let i : (highest + 1) % tree_max_items ≡ index = ap (λ p. p.1) same in
          (omega (arith, i), omega (arith, t, i))
      | inr overflows ↦ cc (rw overflows at e)
    ]

-- The position that `NextMerkleTreePosition` returns has an index within a tree, and its global
-- position is above that of every leaf.
pub next_merkle_tree_position-free :
    (leaves : List TxidLeaf) (tree index : ℕ)
    → next_merkle_tree_position (ok leaves) ≡ ok (tree, index)
    → (index < tree_max_items)
      × All
          (λ leaf.
            get_global_tree_position leaf.tree leaf.index < get_global_tree_position tree index)
          leaves
unfolding next_merkle_tree_position max_position
next_merkle_tree_position-free [] tree index e =
    let same : Path (ℕ × ℕ) (0, 0) (tree, index) = cc in
    let i : 0 ≡ index = ap (λ p. p.1) same in (omega (arith, i), tt)
next_merkle_tree_position-free (leaf ∷ leaves) tree index e =
    let (max, found, above, all) = max_position-All (position_of leaf) leaves in
    let (small, next) = after_position-at max tree index (rw found at e) in
    (small, (omega (arith, above, next), All-map _ _ (λ l h. omega (arith, h, next)) leaves all))

-- Two positions with indices within a tree and one global position are the same.
pub get_global_tree_position-injective :
    (tree index tree' index' : ℕ)
    → index < tree_max_items
    → index' < tree_max_items
    → get_global_tree_position tree index ≡ get_global_tree_position tree' index'
    → (tree ≡ tree') × (index ≡ index')
unfolding get_global_tree_position
get_global_tree_position-injective tree index tree' index' h h' e =
    (omega (arith, h, h', e), omega (arith, h, h', e))
